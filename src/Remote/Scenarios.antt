-- ===== src/Remote/Scenarios.antt =====
-- Runs of the ssh helpers, and their theorems at concrete inputs.
use oracle_patching.Prelude.{
  ◌≡◌, ◌≤◌, refl, false, some, List, [], ◌∷◌, ◌++◌, is_nil, length, all, any, last, select,
}
use oracle_patching.Prelude.Text.{
  codes, codes_eq, is_blank, is_digit, is_space, pieces, trim, is_alnum,
}
use oracle_patching.Exec.{Result, ok, err, ◌>>=◌}
use oracle_patching.Remote.Quote.{Text, quote, command, shell_words, command-shell_words}
use oracle_patching.Remote.Run.{RemoteError, Completed, Call, Env, pull_file, run_remote_shell}
use oracle_patching.Remote.Hosts.{host_ips, reachable_from}
use oracle_patching.Remote.Transfer.{made, Transfer, authorise, direct_transfer}
use oracle_patching.Remote.Bounds.{pull_file_bounded}
use oracle_patching.Remote.Withdrawn.{
  Authorises, Withdraws, the_transfer, direct_transfer-Withdraws,
}

-- Every process ends with code 0 and prints the same line.
abbrev quiet : Text → Env
quiet out = record {
  ssh = λ calls c. some (record { returncode = 0; stdout = out; stderr = [] });
  loads = λ text. err text;
  other_digit = λ c. false;
}

abbrev hostile : List Text
hostile = codes "cat" ∷ codes "it's $(reboot)" ∷ [] ∷ []

quote_runs : quote (codes "it's") ≡ codes "'it'\"'\"'s'"
unfolding quote codes all
quote_runs = refl

command-shell_words_example : shell_words (command hostile) ≡ some hostile
command-shell_words_example = command-shell_words hostile

pull_runs :
    (pull_file (quiet (codes "abc")) (codes "db1") (codes "/x") 30 false (some 3) []).0
    ≡ ok (codes "abc")
unfolding pull_file codes ◌>>=◌ is_blank
pull_runs = refl

pull_file_bounded_example : (1 ≤ 3) × (length (codes "abc") ≤ 3)
unfolding pull_file codes ◌>>=◌ is_blank
pull_file_bounded_example =
    pull_file_bounded (quiet (codes "abc")) (codes "db1") (codes "/x") 30 false 3 []
      (pull_file (quiet (codes "abc")) (codes "db1") (codes "/x") 30 false (some 3) []).1
      (codes "abc") refl

ips_run :
    (host_ips (quiet (codes "10.0.0.1 fe80::1 10.0.0.2 ")) (codes "db1") 30 []).0
    ≡ ok (codes "10.0.0.1" ∷ codes "10.0.0.2" ∷ [])
unfolding host_ips codes ◌>>=◌ run_remote_shell select pieces is_space is_blank all is_digit
ips_run = refl

reach_runs :
    (reachable_from
      (λ t. t)
      (quiet (codes "10.0.0.2\n"))
      (codes "db1")
      (codes "10.0.0.1" ∷ codes "10.0.0.2" ∷ [])
      22
      45
      []).0
    ≡ ok (some (codes "10.0.0.2"))
unfolding reachable_from codes ◌>>=◌ is_blank select all is_digit run_remote_shell any codes_eq last
    pieces trim
reach_runs = refl

-- Both hosts answer "root" to everything, and ssh-keygen writes the marker as the comment.
abbrev root_env : Env
root_env = quiet (codes "root")

abbrev pubkey : Text
pubkey = codes "ssh-ed25519 AAAA opu-transfer-0a\n"

abbrev key : Text
key = codes "ssh-ed25519 AAAA "

abbrev tar : List Text
tar = codes "tar" ∷ codes "-cf" ∷ codes "-" ∷ codes "38632161" ∷ []

abbrev from_ips : List Text
from_ips = codes "10.0.0.1" ∷ []

abbrev asked : Result RemoteError Completed × List Call
asked = run_remote_shell root_env (codes "db2") (codes "id -un") 30 false []

abbrev who : Completed
who = record { returncode = 0; stdout = codes "root"; stderr = [] }

abbrev transfer : Transfer
transfer =
    the_transfer root_env pubkey (codes "KEY") key (codes "0a") (codes "db1") tar (codes "db2") tar
      (codes "10.0.0.2") from_ips 3600 false false who

pubkey-key : trim pubkey ≡ key ++ (codes "opu-transfer-" ++ codes "0a")
unfolding codes trim
pubkey-key = refl

direct_transfer-Withdraws_example :
    (line : Text) × (added deleted : Call) × (before : List Call) × ((authorise root_env transfer
        asked.1).1
      ≡ added ∷ asked.1)
    × Authorises (codes "db2") line added
    × ((direct_transfer root_env
          (made pubkey (codes "KEY"))
          (codes "0a")
          (codes "db1")
          tar
          (codes "db2")
          tar
          (codes "10.0.0.2")
          from_ips
          3600
          false
          false
          []).1
        ≡ deleted ∷ before)
    × Withdraws (codes "db2") line (codes "opu-transfer-" ++ codes "0a") deleted
unfolding run_remote_shell authorise is_nil all codes is_alnum
direct_transfer-Withdraws_example =
    direct_transfer-Withdraws root_env pubkey (codes "KEY") key (codes "0a") (codes "db1") tar
      (codes "db2") tar (codes "10.0.0.2") from_ips 3600 false false [] asked.1
      (authorise root_env transfer asked.1).1 who refl pubkey-key refl refl refl
