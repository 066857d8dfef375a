-- ===== src/Lib.antt =====
-- The package daemon apexd: models of apexd/*.cpp and their correctness.
--
-- The daemon keeps a database of the packages that are mounted, verifies packages against their
-- keys, mounts them over loop and dm-verity devices, stages the packages of an install session
-- for the next boot, and rolls a session back when activation fails.
--
-- What a file models, by the paths from the root of the repository:
--   Database       apexd/apex_database.h: MountedApexDatabase. A database is its map, in the order
--                  of the keys; a failed CHECK or LOG(FATAL) is the result `none`.
--   Populate       apexd/apex_database.cpp: PopulateFromMounts and what it calls.
--   Manifest       apexd/apex_manifest.cpp and proto/apex_manifest.proto.
--   SessionState   proto/session_state.proto.
--   Session        apexd/apexd_session.cpp: ApexSession over the files of its directory.
--   ApexFile       apexd/apex_file.cpp: ApexFile::Open, FindApexes, FindApexFilesByName.
--   Verity         apexd/apex_file.cpp: VerifyApexVerity, VerifyManifestMatches.
--   Keys           apexd/apex_key.cpp: the keys of the built-in packages.
--   Loop           apexd/apexd_loop.cpp and apexd/apexd_loop.h: loop devices.
--   Shim           apexd/apex_shim.cpp: the checks of shim packages.
--   Hooks          apexd/apexd_prepostinstall.cpp: the install hooks, and in Hooks/Child the process
--                  that runs one.
--   Process        apexd/apexd_utils.h: WaitChild, ForkAndRun, WaitForFile.
--   Checkpoint     apexd/apexd_checkpoint_vold.cpp: VoldCheckpointInterface.
--   Boot           apexd/apexd_prop.cpp: waitForBootStatus.
--   Service        apexd/apexservice.cpp: the binder service; its lists of packages and sessions
--                  (Info), its shell commands (Shell, Help, SessionId), its report (Dump), the
--                  parcel of a shell command (Transact), and all its methods as requests (Requests).
--   ApexInfo       apexd/aidl/android/apex: the parcelables of the service.
--   Main           apexd/apexd_main.cpp: the program and its subcommands.
--   Devices, Mount, Activate, Staging, Rollback, Lifecycle, Startup
--                  apexd/apexd.cpp (Mount/Bind: apexd/apexd_private.cpp): dm-verity devices, mounting,
--                  activation (Dangling: the mounts left behind), staging, backup and rollback, and
--                  sessions and startup.
--   Paths          std::filesystem::path, and apexd/apex_constants.h.
--   Daemon         the globals of apexd/apexd.cpp and apexd/apex_key.cpp, and apexd/apexd_utils.h.
--   Os             what the daemon calls and does not implement, as a record of functions over a
--                  type of worlds: system calls, libdm, libavb, libziparchive, protobuf, vold,
--                  libbinder.
--   Config         build-time and boot-time constants.
--   OrdMap         std::map as a sorted list, with its order as an instance.
--   Common         texts as bytes, 64-bit integers, results, and the monad of the daemon's actions:
--                  a state, and an outcome that is a value, an error or an abort of the process.
--   Tests          runs on a concrete world of files.
--
-- Names are the source's, in snake case. A scope guard is `guarded` or `finally`. Error messages
-- are one constructor for each kind of failure. An integer version is an integer, cast to 64 bits
-- where the source casts it; `ParseInt` is a parameter. The offset of an image in a package is
-- cut to 32 bits, and sums of offsets and sizes are of 64 bits, for a size_t and an off_t of 64 bits.
--
-- The service calls the functions of Activate, Staging, Rollback and Lifecycle on the state of the
-- daemon, and its shell calls the methods of the service. Main runs Startup, then Boot, whose
-- completion unmounts what is no longer active and whose rollback is that of Rollback. The pointer
-- gVoldService is an option in the state; where it is null and used, the process aborts.
--
-- Where the daemon writes to its database is followed through all parts: modules named Frame hold
-- what leaves it alone (`mounted_apexes-f` is about the function `f`), modules named Valid what
-- keeps it valid (`f-IsValid`), and Main/Running has the states of a daemon that serves requests
-- while it waits for the boot, with one request as one step: two threads that write to the database
-- at once are not modelled.
--
-- Fuel: `read_sizes` runs on the size of the device, and each round reads a byte or more. The
-- digits of a number run on the number itself. `wait_for_file` has a round for every five
-- milliseconds of its timeout and two more, and a round sleeps as long. `wait_for_boot_status`,
-- which may wait for ever, says whether it has returned within a number of rounds. All other loops
-- walk a list, or count down the attempts of the source.
--
-- Not modelled: the dispatch of onTransact that is generated from the .aidl files, the conversion
-- of arguments from UTF-16, logging, and the tool apexer. The reads of a parcel, the text of a
-- binder status and the fields of a new ApexInfo are parameters.
pub mod Common
pub mod OrdMap
pub mod Database
pub mod Paths
pub mod Manifest
pub mod SessionState
pub mod Os
pub mod ApexFile
pub mod Populate
pub mod Daemon
pub mod Session
pub mod Keys
pub mod Verity
pub mod Process
pub mod Checkpoint
pub mod Loop
pub mod Shim
pub mod Config
pub mod Devices
pub mod Mount
pub mod Activate
pub mod Hooks
pub mod Staging
pub mod Rollback
pub mod Lifecycle
pub mod Startup
pub mod ApexInfo
pub mod Service
pub mod Boot
pub mod Main
mod Tests
