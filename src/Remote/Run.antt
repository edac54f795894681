-- ===== src/Remote/Run.antt =====
-- How webapp/remote.py runs a command over ssh: `_ssh_argv`, `run_remote_raw`, `run_remote`,
-- `run_remote_shell`, `run_remote_checked`, `run_remote_json`, `push_file` and `pull_file`. The state
-- is the sequence of ssh processes so far, the last one first; `Env.ssh` says how the next one ends.
use oracle_patching.Prelude.{
  ℕ, ◌+◌, Bool, false, not, ◌||◌, Option, none, some, List, [], ◌∷◌, ◌++◌, ltb, ◌==◌, ◌!=◌, nat_eq,
  if◌then◌else◌, length, take_last,
}
use oracle_patching.Prelude.Text.{codes, trim, is_blank}
use oracle_patching.Prelude.Text.Decimal.{decimal}
use oracle_patching.Json.{Json}
use oracle_patching.Exec.{Exec, Result, ok, err, pure, ensure, lift, ◌>>=◌}
use oracle_patching.Remote.Quote.{Text, quote, command}

pub record RemoteError : Type 0 where
  pub error : Text
  pub message : Text
  pub stderr : Text

abbrev pub remote_error : Text → Text → Text → RemoteError
remote_error e m s = record { error = e; message = m; stderr = s }

-- One ssh process: its argument vector, its standard input and the seconds it is given.
pub record Call : Type 0 where
  pub argv : List Text
  pub input : Text
  pub timeout : ℕ

-- `subprocess.CompletedProcess`; the code of a process that a signal ended is some number but 0.
pub record Completed : Type 0 where
  pub returncode : ℕ
  pub stdout : Text
  pub stderr : Text

pub record Env : Type 0 where
  -- `none` is `subprocess.TimeoutExpired`
  pub ssh : List Call → Call → Option Completed
  -- `json.loads`, with the text of the error
  pub loads : Text → Result Text Json
  -- the characters beyond ASCII that `str.isdigit` counts
  pub other_digit : ℕ → Bool

abbrev pub Action : Type 0 → Type 0
Action = Exec RemoteError (List Call)

abbrev pub default_timeout : ℕ
default_timeout = 45

-- `_ssh_argv`
unfoldable pub ssh_argv : Text → Text → ℕ → List Text
ssh_argv ssh_alias remote_command timeout =
    let connect_timeout = if ltb 20 timeout then 20 else timeout in
    codes "ssh"
    ∷ codes "-o"
    ∷ codes "BatchMode=yes"
    ∷ codes "-o"
    ∷ (codes "ConnectTimeout=" ++ codes (decimal connect_timeout))
    ∷ codes "-o"
    ∷ codes "ServerAliveInterval=15"
    ∷ codes "-o"
    ∷ codes "ServerAliveCountMax=8"
    ∷ codes "-o"
    ∷ codes "TCPKeepAlive=yes"
    ∷ ssh_alias
    ∷ remote_command
    ∷ []

abbrev pub call : Text → Text → Text → ℕ → Call
call ssh_alias remote_command input timeout = record {
  argv = ssh_argv ssh_alias remote_command timeout;
  input = input;
  timeout = timeout;
}

-- `subprocess.run`, with the error that the caller raises on a timeout.
unfoldable pub run_ssh : Env → Call → RemoteError → Action Completed
run_ssh env c timed_out calls = elim (env.ssh calls c) [
  | none ↦ (err timed_out, c ∷ calls)
  | some completed ↦ (ok completed, c ∷ calls)
]

-- `["sudo", "-n", *argv] if sudo else argv`
unfoldable pub with_sudo : Bool → List Text → List Text
with_sudo sudo argv = if sudo then codes "sudo" ∷ codes "-n" ∷ argv else argv

-- `if bad: raise e`
unfoldable pub refuse_if : Bool → RemoteError → Action (Unit {0})
refuse_if bad e = ensure (not bad) e

no_response : Text → ℕ → Text → RemoteError
no_response ssh_alias timeout doing =
    remote_error (codes "ssh_timeout")
      (codes "No response from "
        ++ ssh_alias
        ++ codes " within "
        ++ codes (decimal timeout)
        ++ codes "s"
        ++ doing)
      []

unfoldable pub run_remote_raw : Env → Text → List Text → ℕ → Bool → Action Completed
unfolding run_ssh ssh_argv with_sudo command no_response
run_remote_raw env ssh_alias argv timeout sudo =
    run_ssh env (call ssh_alias (command (with_sudo sudo argv)) [] timeout)
      (no_response ssh_alias timeout [])

-- `f" stderr={err}" if err else ""`
detail_of : Text → Text
detail_of e = if is_blank e then [] else codes " stderr=" ++ e

failed_command : Text → List Text → Bool → Completed → Text → RemoteError
failed_command ssh_alias argv sudo result how =
    let e = trim result.stderr in
    remote_error (codes "remote_command_failed")
      (codes "Command exited "
        ++ codes (decimal result.returncode)
        ++ codes " on "
        ++ ssh_alias
        ++ how
        ++ codes ": "
        ++ command (with_sudo sudo argv)
        ++ detail_of e)
      e

unfoldable pub run_remote : Env → Text → List Text → ℕ → Bool → Action Text
unfolding run_remote_raw failed_command detail_of refuse_if
run_remote env ssh_alias argv timeout sudo = do
  result ← run_remote_raw env ssh_alias argv timeout sudo
  _ ←
      refuse_if (is_blank (trim result.stdout))
        (failed_command ssh_alias argv sudo result (codes " with no output"))
  pure result.stdout

unfoldable pub run_remote_shell : Env → Text → Text → ℕ → Bool → Action Completed
unfolding run_ssh ssh_argv no_response
run_remote_shell env ssh_alias script timeout sudo =
    let inner = codes "bash -c " ++ quote script in
    let line = if sudo then codes "sudo -n " ++ inner else inner in
    run_ssh env (call ssh_alias line [] timeout) (no_response ssh_alias timeout [])

unfoldable pub run_remote_checked : Env → Text → List Text → ℕ → Bool → Action Text
unfolding run_remote_raw failed_command detail_of refuse_if
run_remote_checked env ssh_alias argv timeout sudo = do
  result ← run_remote_raw env ssh_alias argv timeout sudo
  _ ← refuse_if (result.returncode != 0) (failed_command ssh_alias argv sudo result [])
  pure result.stdout

unparsable : Text → Result Text Json → Result RemoteError Json
unparsable stdout (ok j) = ok j
unparsable stdout (err e) = err (
    remote_error (codes "invalid_json") (codes "Command produced unparsable output: " ++ e)
      (take_last 2000 stdout))

unfoldable pub run_remote_json : Env → Text → List Text → ℕ → Bool → Action Json
unfolding run_remote unparsable
run_remote_json env ssh_alias argv timeout sudo = do
  stdout ← run_remote env ssh_alias argv timeout sudo
  lift (unparsable stdout (env.loads stdout))

-- What stands before the last "/" of a path, and the whole where it has none:
-- `path.rsplit("/", 1)[0]`.
unfoldable pub before_slash : Text → Option Text
before_slash [] = none
before_slash (c ∷ cs) = elim (before_slash cs) [
  | some p ↦ some (c ∷ p)
  | none ↦ if c == b'/' then some [] else none
]

unfoldable pub remote_dir : Text → Text
unfolding before_slash
remote_dir path = elim (before_slash path) [
  | none ↦ if is_blank path then codes "/" else path
  | some p ↦ if is_blank p then codes "/" else p
]

-- The script that `push_file` runs.
unfoldable pub push_script : Text → Text
unfolding remote_dir
push_script path = codes "mkdir -p " ++ quote (remote_dir path) ++ codes " && cat > " ++ quote path

unfoldable pub push_file : Env → Text → Text → Text → ℕ → Bool → Action (Unit {0})
unfolding push_script run_ssh ssh_argv no_response refuse_if
push_file env ssh_alias remote_path content timeout sudo = do
  let inner = push_script remote_path
  let line = if sudo then codes "sudo -n bash -c " ++ quote inner else inner
  result ←
      run_ssh env (call ssh_alias line content timeout)
        (no_response ssh_alias timeout (codes " pushing " ++ remote_path))
  refuse_if (result.returncode != 0) (
      remote_error (codes "push_file_failed")
        (codes "Failed to write " ++ remote_path ++ codes " on " ++ ssh_alias) (trim result.stderr))

-- The words of the reader: `head` where a limit is given, with one byte more than it.
unfoldable pub reader : Option ℕ → List Text
reader none = codes "cat" ∷ codes "--" ∷ []
reader (some n) = codes "head" ∷ codes "-c" ∷ codes (decimal (n + 1)) ∷ codes "--" ∷ []

-- `max_bytes is not None and len(result.stdout) > max_bytes`
unfoldable pub too_large : Option ℕ → Text → Bool
too_large none content = false
too_large (some n) content = ltb n (length content)

-- `ValueError` of a limit below 1.
unfoldable pub bad_limit : Option ℕ → Bool
bad_limit none = false
bad_limit (some n) = ltb n 1

unfoldable pub pull_file : Env → Text → Text → ℕ → Bool → Option ℕ → Action Text
unfolding run_ssh ssh_argv with_sudo command no_response reader too_large bad_limit refuse_if
pull_file env ssh_alias remote_path timeout sudo max_bytes = do
  _ ←
      refuse_if (bad_limit max_bytes)
        (remote_error (codes "ValueError") (codes "max_bytes must be a positive integer") [])
  let line = command (with_sudo sudo (reader max_bytes ++ (remote_path ∷ [])))
  result ←
      run_ssh env (call ssh_alias line [] timeout)
        (no_response ssh_alias timeout (codes " pulling " ++ remote_path))
  _ ← refuse_if (result.returncode != 0 || is_blank result.stdout) (
      remote_error (codes "pull_file_failed")
        (codes "Failed to read " ++ remote_path ++ codes " on " ++ ssh_alias) (trim result.stderr))
  _ ← refuse_if (too_large max_bytes result.stdout) (
      remote_error (codes "remote_file_too_large")
        (codes "File "
          ++ remote_path
          ++ codes " exceeds the "
          ++ codes (elim max_bytes [ none ↦ "None" | some n ↦ decimal n ])
          ++ codes "-byte read limit")
        [])
  pure result.stdout
