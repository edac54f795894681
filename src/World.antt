-- ===== src/World.antt =====
-- What the steps of the readiness pipeline share: the evidence files, the ssh processes so far, the
-- tool trees that were verified, and the errors that a step raises.
pub mod Quiet
use oracle_patching.Prelude.{
  ℕ, String, Bool, true, false, ◌&&◌, Option, none, some, List, ◌==◌, string_eq, if◌then◌else◌,
}
use oracle_patching.Exec.{Result, ok, err, Exec}
use oracle_patching.Json.{Json}
use oracle_patching.Remote.Quote.{Text}
use oracle_patching.Remote.Run.{RemoteError, Call}

-- A path of the evidence tree: nothing, a document, a regular file that is no JSON, or a symbolic
-- link, to a document or to nothing.
pub data File : Type 0 where
  absent : File
  doc : Json → File
  garbled : File
  link : Option Json → File

-- `Path.is_file`, which follows links.
unfoldable pub is_file : File → Bool
is_file absent = false
is_file (doc j) = true
is_file garbled = true
is_file (link none) = false
is_file (link (some j)) = true

unfoldable pub is_symlink : File → Bool
is_symlink (link target) = true
is_symlink _ = false

-- The files by host and evidence name.
abbrev pub Files : Type 0
Files = String → String → File

unfoldable pub set_file : String → String → File → Files → Files
set_file host name f files h n = if h == host && n == name then f else files h n

pub record World : Type 0 where
  pub files : Files
  pub calls : List Call
  -- `_verified_at` of tools_sync.py: when a tree was last verified, and its fingerprint
  pub verified : List (String × (ℕ × Text))

pub data Error : Type 0 where
  evidence_error : Text → Error
  remote : RemoteError → Error
  local_tool : (tool : String) → (message stderr : Text) → Error
  -- `json.JSONDecodeError`
  decode : Error
  -- `OSError` of a write
  os : Error
  -- `AttributeError`, `KeyError` or `TypeError`
  fault : Error

abbrev pub Action : Type 0 → Type 0
Action = Exec Error World

module _ {A : Type 0} where
  abbrev pub answered : World → Result RemoteError A × List Call → Result Error A × World
  answered w (ok a, calls) = (ok a, record w { calls = calls })
  answered w (err e, calls) = (err (remote e), record w { calls = calls })

  -- An action over ssh.
  unfoldable pub over_ssh : Exec RemoteError (List Call) A → Action A
  over_ssh m w = answered w (m w.calls)

  renamed :
      (RemoteError → RemoteError)
      → Result RemoteError A × List Call
      → Result RemoteError A × List Call
  renamed f (ok a, calls) = (ok a, calls)
  renamed f (err e, calls) = (err (f e), calls)

  -- The same, where the caller raises another error for the one of the call.
  unfoldable pub over_ssh_as :
      (RemoteError → RemoteError) → Exec RemoteError (List Call) A → Action A
  unfolding over_ssh renamed
  over_ssh_as f m = over_ssh (λ calls. renamed f (m calls))
