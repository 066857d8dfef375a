-- ===== src/Staging/Files.antt =====
-- The link loop of `stagePackages` (apexd/apexd.cpp) against the file system: it links every
-- package, or takes away again what it has linked.
use android_system_apex.Common.{
  ◌≡◌, ◌≢◌, ◌⊎◌, inl, inr, refl, sym, ap, ◌∙◌, subst, true, false, ◌||◌, Option, none, List, [],
  ◌∷◌, arith, Text, text_eq, text_eq_iff, if◌then◌else◌, Error, ok, StatusOr-cases, Outcome, done,
  failed, aborted, Outcome-cases, Bool-cases,
}
use android_system_apex.Os.{Os, is_success}
use android_system_apex.ApexFile.{ApexFile, open_apex}
use android_system_apex.Daemon.{Daemon}
use android_system_apex.Staging.{
  Staged, contains, insert, stage_dest_path, link_one, link_all, unlink_all,
}

contains-insert :
    (a p : Text) (set : List Text) → contains p (insert a set) ≡ (text_eq a p || contains p set)
contains-insert a p set = elim (Bool-cases (text_eq a p)) [
  | inl same ↦
      let q = (text_eq_iff a p).0 same in
      rw same (elim (Bool-cases (contains a set)) [
        | inl old ↦ rw old (subst (λ x. contains x set ≡ true) q old)
        | inr new ↦ rw new (rw ((text_eq_iff p a).1 (sym q)) refl)
      ])
  | inr other ↦ rw other (ground (arith, text_eq_iff a p, text_eq_iff p a))
]

module _ {W : Type 0} (os : Os W) (files : Text → W → Option Text) where
  -- `files p w` is the file at the path `p`. `link` makes a new name for a file where there was
  -- none, `unlink` takes a name away, and neither does anything when it fails.
  pub record IsFileSystem : Type 0 where
    pub link_ok :
        (a b p : Text) (w : W)
        → is_success (os.link a b w).0 ≡ true
        → (files b w ≡ none)
          × (files p (os.link a b w).1 ≡ (if text_eq b p then files a w else files p w))
    pub link_fail :
        (a b p : Text) (w : W)
        → is_success (os.link a b w).0 ≡ false
        → files p (os.link a b w).1 ≡ files p w
    pub unlink_ok :
        (a p : Text) (w : W)
        → is_success (os.unlink a w).0 ≡ true
        → files p (os.unlink a w).1 ≡ (if text_eq a p then none else files p w)
    pub unlink_fail :
        (a p : Text) (w : W)
        → is_success (os.unlink a w).0 ≡ false
        → files p (os.unlink a w).1 ≡ files p w

  -- The path is among those that are unlinked one after the other, and to unlink it fails.
  abbrev pub Stuck : Text → List Text → W → Type 0
  Stuck p [] w = ⊥
  Stuck p (a ∷ paths) w =
      ((text_eq a p ≡ true) × (is_success (os.unlink a w).0 ≡ false))
      ⊎ Stuck p paths (os.unlink a w).1

  Stuck-contains :
      (p : Text) (paths : List Text) (w : W) → Stuck p paths w → contains p paths ≡ true
  Stuck-contains p [] w h = absurd h
  Stuck-contains p (a ∷ paths) w (inl (same, fails)) =
      ground (arith, text_eq_iff a p, text_eq_iff p a)
  Stuck-contains p (a ∷ paths) w (inr h) =
      ground (arith, Stuck-contains p paths (os.unlink a w).1 h)

  -- What `unlink_all` leaves.
  unlink_all-files :
      (paths : List Text) (p : Text) (d : Daemon W)
      → IsFileSystem
      → Stuck p paths d.world
        ⊎ (files p (unlink_all os paths d).1.world
            ≡ (if contains p paths then none else files p d.world))
  unfolding unlink_all
  unlink_all-files [] p d laws = inr refl
  unlink_all-files (a ∷ paths) p d laws =
      let d' : Daemon W = record d { world = (os.unlink a d.world).1 } in
      elim (unlink_all-files paths p d' laws) [
        | inl stuck ↦ inl (inr stuck)
        | inr left ↦ elim (Bool-cases (is_success (os.unlink a d.world).0)) [
          | inl works ↦ inr (
              ground
                (arith, left, laws.unlink_ok a p d.world works, text_eq_iff a p, text_eq_iff p a))
          | inr fails ↦ elim (Bool-cases (text_eq a p)) [
            | inl same ↦ inl (inl (same, fails))
            | inr other ↦ inr (
                ground (
                  arith,
                  left,
                  laws.unlink_fail a p d.world fails,
                  text_eq_iff a p,
                  text_eq_iff p a,
                ))
          ]
        ]
      ]

  -- The files that the loop has linked so far were new names: the world before differs from the
  -- world now at those names alone.
  abbrev pub OnlyNew : List Text → W → W → Type 0
  OnlyNew linked before now =
      (p : Text) → files p before ≡ (if contains p linked then none else files p now)

  abbrev linked : ApexFile → W → W
  linked apex w = (os.link apex.apex_path (stage_dest_path apex) w).1

  -- A round that fails adds no file; one that succeeds adds the destination of its package.
  link_one-failed :
      (path : Text) (staged : Staged os) (d : Daemon W) {e : Error}
      → IsFileSystem
      → (link_one os path staged d).0 ≡ failed e
      → (p : Text) → files p (link_one os path staged d).1.world ≡ files p d.world
  unfolding link_one
  link_one-failed path staged d laws h p = elim (StatusOr-cases (open_apex os path d.world)) [
    | inr (e', refused) ↦ ground arith
    | inl (apex, opened) ↦
        ground (arith, laws.link_fail apex.apex_path (stage_dest_path apex) p d.world)
  ]

  link_one-done :
      (path : Text) (staged staged' : Staged os) (d : Daemon W)
      → IsFileSystem
      → (link_one os path staged d).0 ≡ done staged'
      → (apex : ApexFile) × (open_apex os path d.world ≡ ok apex)
        × (staged' ≡ (insert (stage_dest_path apex) staged.0, insert apex.manifest.name staged.1))
        × (files (stage_dest_path apex) d.world ≡ none)
        × ((p : Text)
            → files p (link_one os path staged d).1.world ≡ (
                if text_eq (stage_dest_path apex) p
                then files apex.apex_path d.world
                else files p d.world))
  unfolding link_one
  link_one-done path staged staged' d laws h = elim (StatusOr-cases (open_apex os path d.world)) [
    | inr (e', refused) ↦ ground arith
    | inl (apex, opened) ↦
        let dest = stage_dest_path apex in
        elim (Bool-cases (is_success (os.link apex.apex_path dest d.world).0)) [
          | inr refused ↦ ground arith
          | inl worked ↦ (
            apex,
            opened,
            ground arith,
            (laws.link_ok apex.apex_path dest dest d.world worked).0,
            λ p. ground (arith, laws.link_ok apex.apex_path dest p d.world),
          )
        ]
  ]

  OnlyNew-link_one :
      (path : Text) (staged staged' : Staged os) (before : W) (d : Daemon W)
      → IsFileSystem
      → OnlyNew staged.0 before d.world
      → (link_one os path staged d).0 ≡ done staged'
      → OnlyNew staged'.0 before (link_one os path staged d).1.world
  OnlyNew-link_one path staged staged' before d laws only h p =
      let (apex, opened, e, absent, now) = link_one-done path staged staged' d laws h in
      let dest = stage_dest_path apex in
      rw (e, contains-insert dest p staged.0)
        (elim (Bool-cases (text_eq dest p)) [
          | inl same ↦
              let absent' : files p d.world ≡ none =
                subst (λ q. files q d.world ≡ none) ((text_eq_iff dest p).0 same) absent in
              ground (arith, only p)
          | inr other ↦ ground (arith, only p, now p)
        ])

  unlink_all_done : (paths : List Text) (d : Daemon W) → (unlink_all os paths d).0 ≡ done tt
  unfolding unlink_all
  unlink_all_done [] d = refl
  unlink_all_done (a ∷ paths) d =
      unlink_all_done paths (record d { world = (os.unlink a d.world).1 })

  guarded_failed :
      (path : Text) (paths : List Text) (staged : Staged os) (d : Daemon W) {e : Error}
      → (link_one os path staged d).0 ≡ failed e
      → link_all os (path ∷ paths) staged d
        ≡ (failed e, (unlink_all os staged.0 (link_one os path staged d).1).1)
  unfolding link_all
  guarded_failed path paths staged d h =
      ground (arith, unlink_all_done staged.0 (link_one os path staged d).1)

  guarded_done :
      (path : Text) (paths : List Text) (staged staged' : Staged os) (d : Daemon W)
      → (link_one os path staged d).0 ≡ done staged'
      → link_all os (path ∷ paths) staged d
        ≡ link_all os paths staged' (link_one os path staged d).1
  unfolding link_all
  guarded_done path paths staged staged' d h = ground arith

  link_one_returns :
      (path : Text) (staged : Staged os) (d : Daemon W) → (link_one os path staged d).0 ≢ aborted
  unfolding link_one
  link_one_returns path staged d h = ground arith

  -- What a failed loop leaves at a path: the file that was there before, or, where there was
  -- none, a new file that the cleanup could not unlink.
  abbrev pub Restored : W → List Text → W → Text → W → Type 0
  Restored before linked cleanup p after =
      (files p after ≡ files p before) ⊎ ((files p before ≡ none) × Stuck p linked cleanup)

  -- The loop fails, and ends with unlinking what it has linked.
  abbrev pub Undone : W → Outcome (Staged os) × Daemon W → Type 0
  Undone before r =
      (e : Error) × (r.0 ≡ failed e)
      × (linked : List Text) × (cleanup : Daemon W) × (r.1 ≡ (unlink_all os linked cleanup).1)
      × ((p : Text) → Restored before linked cleanup.world p r.1.world)

  -- The loop succeeds.
  abbrev pub Linked : W → Outcome (Staged os) × Daemon W → Type 0
  Linked before r = (staged : Staged os) × (r.0 ≡ done staged) × OnlyNew staged.0 before r.1.world

  cleaned :
      (linked : List Text) (before : W) (p : Text) (d : Daemon W)
      → IsFileSystem
      → OnlyNew linked before d.world
      → Restored before linked d.world p (unlink_all os linked d).1.world
  cleaned linked before p d laws only = elim (unlink_all-files linked p d laws) [
    | inl stuck ↦ inr (ground (arith, only p, Stuck-contains p linked d.world stuck), stuck)
    | inr left ↦ inl (left ∙ sym (only p))
  ]

  -- Whether `link_all` fails or succeeds, from where some files have been linked already.
  link_all-OnlyNew :
      (paths : List Text) (staged : Staged os) (before : W) (d : Daemon W)
      → IsFileSystem
      → OnlyNew staged.0 before d.world
      → Undone before (link_all os paths staged d) ⊎ Linked before (link_all os paths staged d)
  unfolding link_all
  link_all-OnlyNew [] staged before d laws only = inr (staged, refl, only)
  link_all-OnlyNew (path ∷ paths) staged before d laws only =
      elim (Outcome-cases (link_one os path staged d).0) [
        | inr (inr stops) ↦ absurd (link_one_returns path staged d stops)
        | inr (inl (e, fails)) ↦
            let d' = (link_one os path staged d).1 in
            let whole = guarded_failed path paths staged d fails in
            let only' : OnlyNew staged.0 before d'.world = λ p.
              only p
              ∙ ap (λ f. if contains p staged.0 then none else f)
                  (sym (link_one-failed path staged d laws fails p)) in
            inl (
              e,
              ap (λ r. r.0) whole,
              staged.0,
              d',
              ap (λ r. r.1) whole,
              λ p.
                  subst (λ r. Restored before staged.0 d'.world p r.1.world) (sym whole)
                    (cleaned staged.0 before p d' laws only'),
            )
        | inl (staged', works) ↦ rw (guarded_done path paths staged staged' d works) (
            link_all-OnlyNew paths staged' before (link_one os path staged d).1 laws
              (OnlyNew-link_one path staged staged' before d laws only works))
      ]

  -- Where `link` makes and `unlink` takes away one name, and neither does anything when it fails:
  -- the loop that links the packages to stage never aborts. When it fails, it ends with unlinking
  -- the names that it has linked, and every path has the file that it had before the loop, except
  -- for a name that was free before and that this unlinking failed to take away. When it succeeds,
  -- the staged files are names that were free before, and every other path has the file that it
  -- had.
  pub link_all_atomic :
      (paths : List Text) (d : Daemon W)
      → IsFileSystem
      → Undone d.world (link_all os paths ([], []) d)
        ⊎ Linked d.world (link_all os paths ([], []) d)
  link_all_atomic paths d laws = link_all-OnlyNew paths ([], []) d.world d laws (λ p. refl)
