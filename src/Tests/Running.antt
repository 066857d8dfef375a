-- ===== src/Tests/Running.antt =====
-- Runs of the whole daemon (apexd/apexd_main.cpp, apexd/apexservice.cpp) and of objects that own
-- devices.
use android_system_apex.Common.{
  ◌≡◌, refl, true, none, List, [], ◌∷◌, Text, codes, done, pos, length,
}
use android_system_apex.Common.Effects.{◌>>=◌, pure}
use android_system_apex.Database.Invariant.{IsValid}
use android_system_apex.Database.Reachable.{created, Reachable-IsValid}
use android_system_apex.Daemon.{Daemon}
use android_system_apex.Devices.{
  verity_device_at, release, move_verity_device, assign_verity_device, destroy_verity_device,
}
use android_system_apex.Devices.Lifetime.{destroy_both, destroy_verity_device-moves}
use android_system_apex.Service.Requests.{answer, call_activate}
use android_system_apex.Service.Transact.{
  Parcel, Written, over, next, sent, shell_transaction, shell_transaction-Written,
}
use android_system_apex.Service.Shell.{shell_command}
use android_system_apex.Main.{main}
use android_system_apex.Main.Valid.{main-IsValid}
use android_system_apex.Main.Running.{started, answered, Running-IsValid}
use android_system_apex.Startup.{on_start}
use android_system_apex.Tests.World.{Files, files_os}
use android_system_apex.Tests.Sessions.{config}
use android_system_apex.Tests.Service.{binder, daemon}

-- A daemon that has started and was asked to activate a package.
abbrev asked : Daemon Files
asked =
    (answer files_os config binder (call_activate (codes "/system/apex/media"))
      (on_start files_os config none [] daemon).1).1

Running-IsValid_example : IsValid asked.mounted_apexes
Running-IsValid_example =
    Running-IsValid files_os config binder
      (answered (call_activate (codes "/system/apex/media")) (started none [] daemon refl))

main-IsValid_example : IsValid (main files_os config 2 [] [] daemon).1.mounted_apexes
main-IsValid_example = main-IsValid files_os config 2 [] [] daemon (Reachable-IsValid created)

destroy_verity_device-moves_example :
    (destroy_verity_device files_os (release (verity_device_at (codes "media") [])) daemon
      ≡ (done tt, daemon))
    × (destroy_both files_os (move_verity_device (verity_device_at (codes "media") [])) daemon
        ≡ destroy_verity_device files_os (verity_device_at (codes "media") []) daemon)
    × (destroy_both files_os
          (assign_verity_device
            (verity_device_at (codes "old") [])
            (verity_device_at (codes "media") []))
          daemon
        ≡ destroy_verity_device files_os (verity_device_at (codes "media") []) daemon)
destroy_verity_device-moves_example =
    destroy_verity_device-moves files_os (verity_device_at (codes "old") [])
      (verity_device_at (codes "media") []) daemon

-- A parcel as the texts that it holds, after the three descriptors and the count.
abbrev word : List Text → Text × List Text
word [] = ([], [])
word (w ∷ ws) = (w, ws)

abbrev texts : Parcel (List Text)
texts = record {
  read_file_descriptor = λ p. (pos 1, p);
  read_int32 = λ p. (pos (length p), p);
  data_avail = length;
  read_string16 = word;
  read_nullable_strong_binder = λ p. ((pos 0, true), p);
}

abbrev shell_words : List Text
shell_words = codes "getActivePackage" ∷ codes "com.android.media" ∷ []

shell_words-Written : Written texts shell_words (pos 1) (pos 1) (pos 1) shell_words true
shell_words-Written = record {
  p1 = shell_words;
  p2 = shell_words;
  p3 = shell_words;
  p4 = shell_words;
  p5 = [];
  p6 = [];
  p7 = [];
  callback = true;
  reads_input = refl;
  reads_output = refl;
  reads_errors = refl;
  reads_count = refl;
  holds = next refl refl (next refl refl over);
  reads_callback = refl;
  reads_receiver = refl;
}

shell_transaction-Written_example : shell_transaction texts files_os config binder shell_words ≡ (do
  reply ← shell_command files_os config binder (pos 1) (pos 1) (pos 1) shell_words
  pure (sent texts true reply))
shell_transaction-Written_example =
    shell_transaction-Written texts files_os config binder shell_words (pos 1) (pos 1) (pos 1)
      shell_words true shell_words-Written
