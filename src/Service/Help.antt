-- ===== src/Service/Help.antt =====
-- apexd/apexservice.cpp: what the shell prints, and its help.
use android_system_apex.Common.{
  Bool, true, false, Option, none, some, List, [], ◌∷◌, ◌++◌, Text, codes,
}
use android_system_apex.ApexInfo.{ApexInfo, ApexSessionInfo}
use android_system_apex.Service.Info.{endl, info_to_string}

-- A `dprintf` to one of the two streams.
pub data Stream : Type 0 where
  to_out to_err : Stream

abbrev pub Printed : Type 0
Printed = List (Stream × Text)

abbrev lines : List Text → Text
lines [] = []
lines (line ∷ rest) = line ++ (endl ++ lines rest)

-- The help. The line of getStagedSessionInfo has no end.
abbrev help_text : Text
help_text = lines (
    codes "ApexService:"
    ∷ codes "  help - display this help"
    ∷ codes "  stagePackage [packagePath] - stage package from the given path"
    ∷ (codes "  stagePackages [packagePath1] ([packagePath2]...) - stage "
        ++ codes "multiple packages from the given path")
    ∷ (codes "  getActivePackage [packageName] - return info for active package "
        ++ codes "with given name, if present")
    ∷ codes "  getAllPackages - return the list of all packages"
    ∷ codes "  getActivePackages - return the list of active packages"
    ∷ (codes "  activatePackage [packagePath] - activate package from the " ++ codes "given path")
    ∷ (codes "  deactivatePackage [packagePath] - deactivate package from the "
        ++ codes "given path")
    ∷ (codes "  preinstallPackages [packagePath1] ([packagePath2]...) - run "
        ++ codes "pre-install hooks of the given packages")
    ∷ (codes "  postinstallPackages [packagePath1] ([packagePath2]...) - run "
        ++ codes "post-install hooks of the given packages")
    ∷ (codes "  getStagedSessionInfo [sessionId] - displays information about a "
        ++ (codes "given session previously submitted"
            ++ (codes "  submitStagedSession [sessionId] - attempts to submit the "
                ++ codes "installer session with given id")))
    ∷ [])

-- `print_help`.
unfoldable pub print_help : Stream → Option Text → Printed
print_help stream none = (stream, help_text) ∷ []
print_help stream (some prefix) = (stream, prefix ++ (endl ++ help_text)) ∷ []

-- The infos, a `dprintf` each.
unfoldable pub print_infos : List ApexInfo → Printed
print_infos [] = []
print_infos (info ∷ infos) = (to_out, info_to_string info) ∷ print_infos infos

-- `operator<<` of a bool, without boolalpha.
abbrev bit : Bool → Text
bit true = codes "1"
bit false = codes "0"

-- What getStagedSessionInfo prints.
unfoldable pub session_info_text : ApexSessionInfo → Text
session_info_text info =
    codes "session_info: "
    ++ (codes " isUnknown: "
        ++ (bit info.is_unknown
            ++ (codes " isVerified: "
                ++ (bit info.is_verified
                    ++ (codes " isStaged: "
                        ++ (bit info.is_staged
                            ++ (codes " isActivated: "
                                ++ (bit info.is_activated
                                    ++ (codes " isActivationFailed: "
                                        ++ (bit info.is_activation_failed ++ endl))))))))))
