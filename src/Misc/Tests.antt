-- ===== src/Misc/Tests.antt =====
-- Addresses, options and the search path at concrete inputs.
use lamp_userspace.Prelude.{
  ℕ, ◌≤◌, ◌<◌, ◌≡◌, ◌≢◌, refl, true, leb, ◌==◌, if◌then◌else◌, List, [], ◌∷◌, length, map, drop,
  Option, none, some, arith,
}
use lamp_userspace.Prelude.Text.{codes}
use lamp_userspace.Strings.Text.{strchr}
use lamp_userspace.Misc.Inet.{
  af_inet, enospc, inet_aton, inet_ntoa, Ntop, address_text, inet_ntop, address, inet_pton,
}
use lamp_userspace.Misc.Inet.RoundTrip.{inet_aton-inet_ntoa, inet_ntop-inet_pton}
use lamp_userspace.Misc.Getopt.{Getopt}
use lamp_userspace.Misc.Getopt.Options.{event, options}
use lamp_userspace.Misc.Getopt.Run.{variables}
use lamp_userspace.Misc.Getopt.Complete.{ran, call_all, getopt_lem}
use lamp_userspace.Misc.Execvp.{replaced, execvp}
use lamp_userspace.Misc.Execvp.Candidates.{execvp_lem}

inet_aton-inet_ntoa_example : inet_aton (inet_ntoa 16777343) true ≡ some 16777343
inet_aton-inet_ntoa_example = inet_aton-inet_ntoa 16777343 (omega arith)

inet_ntop-inet_pton_example :
    (text : List ℕ) × ((length text ≤ 15)
      × ((inet_pton af_inet (some text) true ≡ address 16777343)
          × ((size : ℕ)
              → size ≢ 0
              → inet_ntop af_inet (some 16777343) true size
                ≡ (if leb size (length text) then Ntop.failed enospc else address_text text))))
inet_ntop-inet_pton_example = inet_ntop-inet_pton 16777343 (omega arith)

abbrev arguments : List (List ℕ)
arguments = codes "-vofile" ∷ codes "-o" ∷ codes "other" ∷ codes "-z" ∷ codes "--" ∷ codes "-v" ∷ []

-- The options of these arguments for `vo:`.
options_run : options (codes "vo:") arguments ≡ (
  event b'v' none b'v'
      ∷ event b'o' (some (codes "file")) b'o'
      ∷ event b'o' (some (codes "other")) b'o'
      ∷ event b'?' none b'z'
      ∷ [],
  codes "-v" ∷ [],
)
options_run = refl

four_options : length (options (codes "vo:") arguments).0 < 5
four_options = omega arith

getopt_lem_example :
    (final : Getopt) × ((call_all 5
          (some (codes "prog") ∷ map some arguments)
          (codes "vo:")
          (variables none 1 0 none)
        ≡ ran (options (codes "vo:") arguments).0 final)
      × (drop final.optind (some (codes "prog") ∷ map some arguments)
          ≡ map some (options (codes "vo:") arguments).1))
getopt_lem_example = getopt_lem (some (codes "prog")) arguments (codes "vo:") 5 four_options

-- The only file is /bin/ls, whose text has seven bytes.
abbrev only_ls : List ℕ → Option ℕ
only_ls path = if length path == 7 then none else some 2

plain_name : strchr (codes "ls") b'/' ≡ none
unfolding strchr
plain_name = refl

execvp_lem_example :
    execvp only_ls (some (codes "ls")) (some (codes "/usr/bin::/bin")) 0
    ≡ replaced (codes "/bin/ls")
execvp_lem_example = execvp_lem only_ls (codes "ls") (some (codes "/usr/bin::/bin")) 0 plain_name
