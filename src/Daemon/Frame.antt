-- ===== src/Daemon/Frame.antt =====
-- apexd/apexd_utils.h: the helpers on files, beside the database of mounted packages.
use android_system_apex.Common.{
  ℕ, true, ◌≡◌, refl, inl, inr, List, [], ◌∷◌, Text, Action, for_each, arith, StatusOr-cases,
}
use android_system_apex.Os.{Os, Errno, FileKind, regular, directory, other_kind, unreadable}
use android_system_apex.ApexFile.{read_dir}
use android_system_apex.Daemon.{
  Daemon, make_directory, create_dir_if_needed, unlink_file, delete_dir_content,
}

pub mounted_apexes-for_each :
    {W A : Type 0} (f : A → Action (Daemon W) (Unit {0})) (xs : List A) (d : Daemon W)
    → ((x : A) (d : Daemon W) → (f x d).1.mounted_apexes ≡ d.mounted_apexes)
    → (for_each f xs d).1.mounted_apexes ≡ d.mounted_apexes
unfolding for_each
mounted_apexes-for_each f [] d h = refl
mounted_apexes-for_each f (x ∷ xs) d h =
    ground (arith, h x d, mounted_apexes-for_each f xs (f x d).1 h)

module _ {W : Type 0} (os : Os W) where
  mounted_apexes-make_directory :
      (kind : FileKind) (path : Text) (mode : ℕ) (d : Daemon W)
      → (make_directory os kind path mode d).1.mounted_apexes ≡ d.mounted_apexes
  unfolding make_directory
  mounted_apexes-make_directory directory path mode d = refl
  mounted_apexes-make_directory regular path mode d = refl
  mounted_apexes-make_directory other_kind path mode d = refl
  mounted_apexes-make_directory (unreadable Errno.enoent) path mode d = ground arith
  mounted_apexes-make_directory (unreadable Errno.no_error) path mode d = refl
  mounted_apexes-make_directory (unreadable Errno.eexist) path mode d = refl
  mounted_apexes-make_directory (unreadable Errno.einval) path mode d = refl
  mounted_apexes-make_directory (unreadable Errno.enotdir) path mode d = refl
  mounted_apexes-make_directory (unreadable Errno.enxio) path mode d = refl
  mounted_apexes-make_directory (unreadable Errno.other_errno) path mode d = refl

  pub mounted_apexes-create_dir_if_needed :
      (path : Text) (mode : ℕ) (d : Daemon W)
      → (create_dir_if_needed os path mode d).1.mounted_apexes ≡ d.mounted_apexes
  unfolding create_dir_if_needed
  mounted_apexes-create_dir_if_needed path mode d =
      ground (arith, mounted_apexes-make_directory (os.stat path d.world) path mode d)

  pub mounted_apexes-delete_dir_content :
      (path : Text) (d : Daemon W)
      → (delete_dir_content os path d).1.mounted_apexes ≡ d.mounted_apexes
  unfolding delete_dir_content
  mounted_apexes-delete_dir_content path d =
      elim (StatusOr-cases (read_dir os path (λ _. true) d.world)) [
        | inl (files, e) ↦
            ground (arith, mounted_apexes-for_each (unlink_file os) files d (λ x d'. ground arith))
        | inr e ↦ ground arith
      ]
