-- ===== src/Tests/Mounted.antt =====
-- Runs of the database of mounted packages (apexd/apex_database.h, apexd/apex_database.cpp).
use android_system_apex.Common.{
  List, ◌≡◌, ◌≢◌, ◌↔◌, refl, true, false, some, [], ◌∷◌, arith, Text, codes, text_lt, text_eq,
  text_eq_iff,
}
use android_system_apex.OrdMap.{find, emplace, is_new, update}
use android_system_apex.Database.Refines.{
  Call, mark, remove, perform_all, view, Steps, perform_all-Steps,
}
use android_system_apex.Database.Entry.{MountedApexData, data_lt, text_order}
use android_system_apex.Database.Latest.{Marked, set_latest-Marked}
use android_system_apex.Database.Invariant.{IsValid}
use android_system_apex.Database.Add.{CanAdd, add_mounted_apex_iff}
use android_system_apex.Database.Reachable.{created, added, marked, Reachable-IsValid}
use android_system_apex.Database.{
  remove_mounted_apex, erase_path, Database, entries, latest_count, package_map, add_mounted_apex,
  set_latest, set_latest_in, check_at_most_one_latest, check_unique_loop_dm,
}

abbrev media : Text
media = codes "com.android.media"

abbrev tzdata : Text
tzdata = codes "com.android.tzdata"

abbrev media_1 : MountedApexData
media_1 = record {
  loop_name = codes "loop0";
  full_path = codes "/system/apex/media.apex";
  mount_point = codes "/apex/com.android.media@1";
  device_name = [];
}

abbrev media_2 : MountedApexData
media_2 = record {
  loop_name = codes "loop1";
  full_path = codes "/data/apex/active/media@2.apex";
  mount_point = codes "/apex/com.android.media@2";
  device_name = codes "com.android.media@2";
}

abbrev one_mounted : Database
one_mounted = (media, (media_1, true) ∷ []) ∷ []

abbrev two_mounted : Database
two_mounted = (media, (media_1, true) ∷ (media_2, false) ∷ []) ∷ []

abbrev two_latest : Database
two_latest = (media, (media_1, false) ∷ (media_2, true) ∷ []) ∷ []

one_mounted-IsValid : IsValid one_mounted
unfolding entries latest_count
one_mounted-IsValid = record {
  latest = (omega arith, tt);
  unique = record { loops = (tt, tt); devices = (tt, tt) };
}

two_mounted-IsValid : IsValid two_mounted
unfolding entries latest_count text_eq
two_mounted-IsValid = record {
  latest = (omega arith, tt);
  unique = record { loops = ((refl, tt), (tt, tt)); devices = ((refl, tt), (tt, tt)) };
}

two_mounted-added : add_mounted_apex media false media_2 one_mounted ≡ some two_mounted
unfolding add_mounted_apex check_at_most_one_latest check_unique_loop_dm latest_count entries
    emplace is_new update find data_lt text_lt text_eq
two_mounted-added = refl

two_latest-set : set_latest media media_2.full_path two_mounted ≡ some two_latest
unfolding set_latest set_latest_in find update text_lt text_eq
two_latest-set = refl

text_eq-tzdata : text_eq tzdata media ≡ false
unfolding text_eq
text_eq-tzdata = refl

tzdata-ne-media : tzdata ≢ media
tzdata-ne-media e = cc (text_eq-tzdata, (text_eq_iff tzdata media).1 e)

add_mounted_apex_iff_example :
    ((db' : Database) × (add_mounted_apex media false media_2 one_mounted ≡ some db'))
    ↔ CanAdd media media_2 one_mounted
add_mounted_apex_iff_example = add_mounted_apex_iff media media_2 one_mounted one_mounted-IsValid

set_latest-Marked_example :
    Marked media_2.full_path (package_map media two_mounted) (package_map media two_latest)
    × (find tzdata two_latest ≡ find tzdata two_mounted)
set_latest-Marked_example =
    set_latest-Marked media media_2.full_path tzdata two_mounted two_latest two_latest-set
      tzdata-ne-media

one_mounted-added : add_mounted_apex media true media_1 [] ≡ some one_mounted
unfolding add_mounted_apex check_at_most_one_latest check_unique_loop_dm latest_count entries
    emplace is_new update find data_lt text_lt text_eq
one_mounted-added = refl

Reachable-IsValid_example : IsValid two_latest
Reachable-IsValid_example = Reachable-IsValid (
    marked media media_2.full_path
      (added media false media_2 (added media true media_1 created one_mounted-added)
        two_mounted-added)
      two_latest-set)

abbrev calls : List Call
calls = mark media media_2.full_path ∷ remove media media_1.full_path ∷ []

abbrev media_2_mounted : Database
media_2_mounted = (media, (media_2, true) ∷ []) ∷ []

calls-performed : perform_all calls two_mounted ≡ some media_2_mounted
unfolding set_latest set_latest_in remove_mounted_apex erase_path find update text_lt text_eq
calls-performed = refl

perform_all-Steps_example : Steps calls (view two_mounted) (view media_2_mounted)
perform_all-Steps_example = perform_all-Steps calls two_mounted media_2_mounted calls-performed
