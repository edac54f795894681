-- ===== src/Remote/Transfer.antt =====
-- Streams from one host to another: `pipe_remote` through the control plane and `direct_transfer`
-- over the hosts' own network, with a key that is authorised for the transfer only.
use mathlib.Core.List.{reverse}
use oracle_patching.Prelude.{
  ℕ, Bool, true, false, ◌&&◌, Option, none, some, List, [], ◌∷◌, ◌++◌, ◌==◌, ◌!=◌, nat_eq,
  if◌then◌else◌, is_nil,
}
use oracle_patching.Prelude.Text.{codes, trim, trim_start, is_blank}
use oracle_patching.Prelude.Text.Decimal.{decimal}
use oracle_patching.Exec.{Result, ok, err, pure, raise, ◌>>=◌, ◌>>◌}
use oracle_patching.Remote.Quote.{Text, quote, command}
use oracle_patching.Remote.Run.{
  RemoteError, remote_error, Call, call, Completed, Env, Action, ssh_argv, with_sudo, refuse_if,
  run_remote_shell, push_file,
}

-- `text.rstrip()`
unfoldable pub trim_end : Text → Text
trim_end text = reverse (trim_start (reverse text))

-- How the two processes of a stream end: `none` is a timeout of either.
pub record Piped : Type 0 where
  pub src : Completed
  pub dst : Completed

from_source : Text → Text → Text
from_source src_alias text = codes "\n[source " ++ src_alias ++ codes "] " ++ text

-- `stderr` with the diagnostics of the source.
unfoldable pub joined_stderr : Text → Piped → Text
unfolding trim_end from_source
joined_stderr src_alias p =
    let src_stderr = trim p.src.stderr in
    if is_blank src_stderr
    then p.dst.stderr
    else trim (trim_end p.dst.stderr ++ from_source src_alias src_stderr)

-- The code and the diagnostics that a stream ends with.
unfoldable pub merge : Text → Piped → Completed
unfolding joined_stderr
merge src_alias p =
    let stderr = joined_stderr src_alias p in
    if p.dst.returncode == 0 && p.src.returncode != 0
    then record {
      returncode = p.src.returncode;
      stdout = p.dst.stdout;
      stderr =
          trim
            (stderr ++ from_source src_alias (codes "exited " ++ codes (decimal p.src.returncode)));
    }
    else record { returncode = p.dst.returncode; stdout = p.dst.stdout; stderr = stderr }

stream_timeout : Text → Text → ℕ → RemoteError
stream_timeout src_alias dst_alias timeout =
    remote_error (codes "ssh_timeout")
      (codes "Stream from "
        ++ src_alias
        ++ codes " to "
        ++ dst_alias
        ++ codes " exceeded "
        ++ codes (decimal timeout)
        ++ codes "s")
      []

-- `pipes` says how the two processes end.
unfoldable pub pipe_remote :
    (pipes : List Call → Call → Call → Option Piped)
    → Text
    → List Text
    → Text
    → List Text
    → ℕ
    → Bool
    → Bool
    → Action Completed
unfolding ssh_argv with_sudo command merge stream_timeout
pipe_remote pipes src_alias src_argv dst_alias dst_argv timeout src_sudo dst_sudo calls =
    let src = call src_alias (command (with_sudo src_sudo src_argv)) [] timeout in
    let dst = call dst_alias (command (with_sudo dst_sudo dst_argv)) [] timeout in
    elim (pipes calls src dst) [
      | none ↦ (err (stream_timeout src_alias dst_alias timeout), dst ∷ src ∷ calls)
      | some p ↦ (ok (merge src_alias p), dst ∷ src ∷ calls)
    ]

-- What `ssh-keygen` leaves.
pub data Keygen : Type 0 where
  failed : Text → Keygen
  made : (pubkey private_key : Text) → Keygen

-- `",".join(src_ips)`
unfoldable pub commas : List Text → Text
commas [] = []
commas (w ∷ []) = w
commas (w ∷ v ∷ ws) = w ++ codes "," ++ commas (v ∷ ws)

-- `forced.replace(chr(34), chr(92) + chr(34))`
unfoldable pub escape_double : Text → Text
escape_double [] = []
escape_double (c ∷ cs) = let rest = escape_double cs in if c == 34 then 92 ∷ 34 ∷ rest else c ∷ rest

-- The line of `authorized_keys`: the key, bound to the source's addresses and to one command.
unfoldable pub auth_line : List Text → Text → Text → Text
unfolding commas escape_double
auth_line src_ips forced pubkey =
    codes "from=\""
    ++ commas src_ips
    ++ codes "\",command=\""
    ++ escape_double forced
    ++ codes "\",no-agent-forwarding,no-port-forwarding,no-pty,no-X11-forwarding,no-user-rc "
    ++ pubkey

unfoldable pub authorise_script : Text → Text
authorise_script line =
    codes
      "umask 077; mkdir -p ~/.ssh; touch ~/.ssh/authorized_keys; chmod 700 ~/.ssh; chmod 600 ~/.ssh/authorized_keys; printf '%s\\n' "
    ++ quote line
    ++ codes " >> ~/.ssh/authorized_keys"

unfoldable pub remove_script : Text → Text
remove_script marker =
    codes "sed -i.opu-bak "
    ++ quote (codes "/" ++ marker ++ codes "$/d")
    ++ codes " ~/.ssh/authorized_keys && rm -f ~/.ssh/authorized_keys.opu-bak"

-- The files of the transfer on the source host.
unfoldable pub src_key : Text → Text
src_key marker = codes "/tmp/" ++ marker ++ codes ".key"

unfoldable pub src_known : Text → Text
src_known marker = codes "/tmp/" ++ marker ++ codes ".known_hosts"

unfoldable pub transfer_script : Text → List Text → Text → Text → Text
unfolding src_key src_known command
transfer_script marker src_argv dst_user dst_ip =
    codes "set -o pipefail; "
    ++ command src_argv
    ++ codes " | ssh -i "
    ++ quote (src_key marker)
    ++ codes
        " -o BatchMode=yes -o IdentitiesOnly=yes -o ConnectTimeout=20 -o StrictHostKeyChecking=accept-new -o UserKnownHostsFile="
    ++ quote (src_known marker)
    ++ codes " -o ServerAliveInterval=15 -o ServerAliveCountMax=8 "
    ++ quote dst_user
    ++ codes "@"
    ++ dst_ip
    ++ codes " opu-forced-command"

-- `try: m` with `except RemoteError: pass`
unfoldable pub quietly : {A : Type 0} → Action A → Action (Unit {0})
quietly m calls = (ok tt, (m calls).1)

-- The arguments of a transfer, with what its first commands gave.
pub record Transfer : Type 0 where
  pub src_alias : Text
  pub src_argv : List Text
  pub dst_alias : Text
  pub dst_ip : Text
  pub timeout : ℕ
  pub marker : Text
  pub line : Text
  pub dst_user : Text
  pub private_key : Text

module _ (env : Env) (t : Transfer) where
  unfoldable pub authorise : Action (Unit {0})
  unfolding run_remote_shell authorise_script refuse_if ◌>>=◌
  authorise = do
    res ← run_remote_shell env t.dst_alias (authorise_script t.line) 45 false
    refuse_if (res.returncode != 0) (
        remote_error (codes "transfer_setup_failed")
          (codes "could not authorise transfer key on " ++ t.dst_alias) (trim res.stderr))

  unfoldable pub send : Action Completed
  unfolding src_key transfer_script
  send = do
    _ ← push_file env t.src_alias (src_key t.marker) t.private_key 45 false
    _ ← run_remote_shell env t.src_alias (codes "chmod 600 " ++ quote (src_key t.marker)) 30 false
    run_remote_shell env t.src_alias (transfer_script t.marker t.src_argv t.dst_user t.dst_ip)
        t.timeout false

  unfoldable pub forget_key : Action (Unit {0})
  unfolding src_key src_known quietly
  forget_key = quietly (
      run_remote_shell env t.src_alias
        (codes "rm -f " ++ quote (src_key t.marker) ++ codes " " ++ quote (src_known t.marker)) 30
        false)

  unfoldable pub withdraw : Action (Unit {0})
  unfolding remove_script quietly
  withdraw = quietly (run_remote_shell env t.dst_alias (remove_script t.marker) 30 false)

  -- The `finally` block; the flag is `installed`.
  unfoldable pub clean_up : Bool → Action (Unit {0})
  unfolding forget_key withdraw
  clean_up installed = forget_key >> (if installed then withdraw else pure tt)

  unfoldable pub closing :
      Bool → Result RemoteError Completed × List Call → Result RemoteError Completed × List Call
  unfolding clean_up
  closing installed (r, calls) = (r, (clean_up installed calls).1)

  unfoldable pub after_authorise :
      Result RemoteError (Unit {0}) × List Call → Result RemoteError Completed × List Call
  unfolding closing send
  after_authorise (ok _, calls) = closing true (send calls)
  after_authorise (err e, calls) = closing false (err e, calls)

  unfoldable pub run_transfer : Action Completed
  unfolding authorise after_authorise
  run_transfer calls = after_authorise (authorise calls)

unfoldable pub or_root : Text → Text
or_root user = if is_blank user then codes "root" else user

-- The transfer that the keys are made for.
unfoldable pub transfer_of :
    (pubkey private_key : Text)
    → (marker dst_user : Text) → (src_alias : Text) → List Text
    → (dst_alias : Text) → List Text
    → Text
    → List Text
    → ℕ
    → Transfer
unfolding auth_line command
transfer_of pubkey private_key marker user src_alias src_argv dst_alias dst_argv dst_ip src_ips
      timeout =
    record {
      src_alias = src_alias;
      src_argv = src_argv;
      dst_alias = dst_alias;
      dst_ip = dst_ip;
      timeout = timeout;
      marker = marker;
      line = auth_line src_ips (command dst_argv) (trim pubkey);
      dst_user = user;
      private_key = private_key;
    }

unfoldable pub with_keys :
    Env
    → Keygen
    → (marker_hex dst_user : Text) → (src_alias : Text) → List Text
    → (dst_alias : Text) → List Text
    → Text
    → List Text
    → ℕ
    → Action Completed
unfolding run_transfer transfer_of
with_keys env (failed stderr) marker user src_alias src_argv dst_alias dst_argv dst_ip src_ips
      timeout =
    raise (
      remote_error (codes "keygen_failed") (codes "ssh-keygen failed on the control plane")
        (trim stderr))
with_keys env (made pubkey key) marker user src_alias src_argv dst_alias dst_argv dst_ip src_ips
      timeout =
    run_transfer env (
      transfer_of pubkey key marker user src_alias src_argv dst_alias dst_argv dst_ip src_ips
        timeout)

-- `marker_hex` is the part of a fresh UUID.
unfoldable pub direct_transfer :
    Env
    → Keygen
    → (marker_hex : Text) → (src_alias : Text) → List Text
    → (dst_alias : Text) → List Text
    → Text
    → List Text
    → ℕ
    → Bool
    → Bool
    → Action Completed
unfolding with_keys or_root with_sudo
direct_transfer env keygen marker_hex src_alias src_argv dst_alias dst_argv dst_ip src_ips timeout
      src_sudo dst_sudo =
    do
      _ ← refuse_if (is_nil src_ips) (
          remote_error (codes "invalid_input")
            (codes "direct transfer needs the source host's IPs for the from= restriction") [])
      who ← run_remote_shell env dst_alias (codes "id -un") 30 false
      with_keys env keygen (codes "opu-transfer-" ++ marker_hex) (or_root (trim who.stdout))
          src_alias (with_sudo src_sudo src_argv) dst_alias (with_sudo dst_sudo dst_argv) dst_ip
          src_ips timeout
