-- ===== src/Tests/World.antt =====
-- A world of files for the runs: paths with their contents, and nothing else of the system.
use android_system_apex.Common.{
  ℕ, ◌+◌, ◌-◌, ◌*◌, ◌==◌, ◌≡◌, refl, ap, ◌∙◌, true, false, ◌&&◌, Option, none, some, List, [], ◌∷◌,
  arith, Text, text_eq, ltb, leb, if◌then◌else◌, is_empty, ℤ, pos, negsuc,
}
use android_system_apex.Os.{
  Os, Errno, no_error, enoent, eexist, FileKind, regular, unreadable, unknown_result, is_success,
}
use android_system_apex.Manifest.{ApexManifest}
use android_system_apex.SessionState.{
  State, SessionState, unknown, verified, staged, activated, activation_failed, succeeded,
  rollback_in_progress, rolled_back, rollback_failed,
}

abbrev pub Files : Type 0
Files = Text → Option Text

abbrev pub set_file : Text → Option Text → Files → Files
set_file path content w p = if text_eq path p then content else w p

abbrev link_found : Option Text → Option Text → Text → Files → Errno × Files
link_found none new b w = (enoent, w)
link_found (some content) none b w = (no_error, set_file b (some content) w)
link_found (some content) (some c) b w = (eexist, w)

abbrev pub link_file : Text → Text → Files → Errno × Files
link_file a b w = link_found (w a) (w b) b w

pub link_file_ok :
    (a b p : Text) (w : Files)
    → is_success (link_file a b w).0 ≡ true
    → (w b ≡ none) × ((link_file a b w).1 p ≡ (if text_eq b p then w a else w p))
link_file_ok a b p w h = ground arith

pub link_file_fail :
    (a b p : Text) (w : Files)
    → is_success (link_file a b w).0 ≡ false
    → (link_file a b w).1 p ≡ w p
link_file_fail a b p w h = ground arith

-- Decimal digits, up to the largest 32-bit number.
unfoldable pub parse_digits : ℕ → Text → Option ℤ
parse_digits n [] = if leb n 2147483647 then some (pos n) else none
parse_digits n (b ∷ s) =
    let rest = parse_digits (n * 10 + (b - 48)) s in if leb 48 b && ltb b 58 then rest else none

-- A session as bytes, and back.
abbrev state_code : State → ℕ
state_code unknown = 0
state_code verified = 1
state_code staged = 2
state_code activated = 3
state_code activation_failed = 4
state_code succeeded = 5
state_code rollback_in_progress = 6
state_code rolled_back = 7
state_code rollback_failed = 8

abbrev code_state : ℕ → State
code_state n =
    if n == 0
    then unknown
    else if n == 1
    then verified
    else if n == 2
    then staged
    else if n == 3
    then activated
    else if n == 4
    then activation_failed
    else if n == 5
    then succeeded
    else if n == 6
    then rollback_in_progress
    else if n == 7
    then rolled_back
    else rollback_failed

code_state-state_code : (s : State) → code_state (state_code s) ≡ s
code_state-state_code unknown = refl
code_state-state_code verified = refl
code_state-state_code staged = refl
code_state-state_code activated = refl
code_state-state_code activation_failed = refl
code_state-state_code succeeded = refl
code_state-state_code rollback_in_progress = refl
code_state-state_code rolled_back = refl
code_state-state_code rollback_failed = refl

abbrev put_int : ℤ → Text → Text
put_int (pos n) s = 0 ∷ n ∷ s
put_int (negsuc n) s = 1 ∷ n ∷ s

unfoldable pub put_ints : List ℤ → Text → Text
put_ints [] s = 2 ∷ s
put_ints (i ∷ is) s = put_int i (put_ints is s)

abbrev add_int : ℤ → Option (List ℤ × Text) → Option (List ℤ × Text)
add_int i none = none
add_int i (some (is, s)) = some (i ∷ is, s)

unfoldable pub get_ints : Text → Option (List ℤ × Text)
get_ints [] = none
get_ints (tag ∷ []) = if tag == 2 then some ([], []) else none
get_ints (tag ∷ n ∷ s) =
    let rest = get_ints s in
    if tag == 2 then some ([], n ∷ s) else add_int (if tag == 0 then pos n else negsuc n) rest

get_ints-put_ints : (is : List ℤ) (s : Text) → get_ints (put_ints is s) ≡ some (is, s)
unfolding get_ints put_ints
get_ints-put_ints [] [] = refl
get_ints-put_ints [] (b ∷ s) = refl
get_ints-put_ints (pos n ∷ is) s = ap (add_int (pos n)) (get_ints-put_ints is s)
get_ints-put_ints (negsuc n ∷ is) s = ap (add_int (negsuc n)) (get_ints-put_ints is s)

abbrev pub write_session : SessionState → Text
write_session s =
    state_code s.state ∷ put_ints (s.id ∷ s.child_session_ids) s.expected_build_fingerprint

abbrev session_of : State → Option (List ℤ × Text) → Option SessionState
session_of state none = none
session_of state (some ([], fingerprint)) = none
session_of state (some (session_id ∷ children, fingerprint)) = some (record {
  id = session_id;
  state = state;
  child_session_ids = children;
  expected_build_fingerprint = fingerprint;
})

abbrev pub read_session : Text → Option SessionState
read_session [] = none
read_session (code ∷ s) = session_of (code_state code) (get_ints s)

pub read_session-write_session : (s : SessionState) → read_session (write_session s) ≡ some s
read_session-write_session s =
    ap (session_of (code_state (state_code s.state)))
      (get_ints-put_ints (s.id ∷ s.child_session_ids) s.expected_build_fingerprint)
    ∙ ap (λ state. some (record s { state = state })) (code_state-state_code s.state)

-- A manifest is its name, with version 1.
abbrev manifest_named : Text → ApexManifest
manifest_named name = record {
  name = name;
  version = pos 1;
  preinstallhook = [];
  postinstallhook = [];
  version_name = [];
}

abbrev kind_of : Option Text → FileKind
kind_of none = unreadable enoent
kind_of (some content) = regular

abbrev pub files_os : Os Files
files_os = record {
  stat = λ path w. kind_of (w path);
  inode = λ path w. none;
  exists = λ path w. some (elim (w path) [ none ↦ false | some c ↦ true ]);
  access = λ path w. elim (w path) [ none ↦ enoent | some c ↦ no_error ];
  read_file = λ path w. w path;
  can_open = λ path w. elim (w path) [ none ↦ false | some c ↦ true ];
  file_status = λ path w. elim (w path) [ none ↦ none | some c ↦ some (true, 0o644) ];
  is_empty = λ path w. elim (w path) [ none ↦ none | some c ↦ some (is_empty c) ];
  list_dir = λ path w. ([], true);
  is_block_file = λ path w. false;
  write_file = λ path content w. (true, set_file path (some content) w);
  unlink = λ path w. (no_error, set_file path none w);
  rmdir = λ path w. (no_error, w);
  remove_all = λ path w. (true, set_file path none w);
  mkdir = λ path mode w. (no_error, w);
  chmod = λ path mode w. (no_error, w);
  link = link_file;
  rename = λ a b w. (no_error, set_file a none (set_file b (w a) w));
  umount = λ path w. (no_error, w);
  bind_mount = λ a b w. (no_error, w);
  mount_ext4 = λ a b w. (no_error, w);
  spawn = λ args w. (some 100, w);
  waitpid = λ pid w. (some 0, w);
  execv = λ path w. (true, w);
  unshare = λ w. (no_error, w);
  make_private = λ w. (no_error, w);
  close = λ fd w. w;
  get_property = λ name w. elim (w name) [ none ↦ [] | some c ↦ c ];
  get_bool_property = λ name default w. elim (w name) [ none ↦ default | some c ↦ true ];
  wait_for_property = λ name value w. (false, w);
  set_property = λ name value w. (true, w);
  reboot = λ w. w;
  add_service = λ name w. w;
  start_threads = λ w. w;
  join_threads = λ w. w;
  sleep = λ time w. w;
  elapsed = λ w w'. 0;
  dm_is_invalid = λ name w. true;
  dm_path = λ name w. none;
  dm_create = λ name table w. (true, w);
  dm_delete = λ name w. (true, w);
  open_device = λ path w. (no_error, w);
  loop_add = λ n w. (no_error, w);
  loop_get_free = λ w. (some 0, w);
  loop_request = λ path request w. (no_error, w);
  loop_name = λ path w. none;
  read_block = λ path size w. (true, w);
  read_at = λ path offset size w. w path;
  avb_footer = λ data'. none;
  avb_verify = λ vbmeta. (unknown_result, []);
  avb_property = λ vbmeta name. none;
  avb_descriptors = λ vbmeta. [];
  get_vold = λ w. true;
  vold_supports_checkpoint = λ w. some true;
  vold_needs_checkpoint = λ w. some false;
  vold_needs_rollback = λ w. some false;
  vold_start_checkpoint = λ n w. (true, w);
  vold_abort_changes = λ message retry w. (true, w);
  parse_int = parse_digits 0;
  trim = λ s. s;
  sha512 = λ s. s;
  json_to_manifest = λ s. some (manifest_named s);
  parse_session = read_session;
  serialize_session = write_session;
  open_archive = λ path w. elim (w path) [
    | none ↦ none
    | some content ↦
        some (λ name.
          some (record { offset = 0; uncompressed_length = 4096; extracted = some content }))
  ];
}
