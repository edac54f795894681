-- ===== src/Tools/Fingerprint.antt =====
-- The tool tree of the checkout and its fingerprint: `_tree_files`, `_snapshot_files` and
-- `local_fingerprint` of webapp/tools_sync.py.
use Prim.Native.Nat.{bit_and}
use oracle_patching.Prelude.{
  ℕ, String, Bool, not, ◌&&◌, ◌||◌, List, [], ◌∷◌, ◌++◌, ◌!=◌, nat_eq, string_eq, if◌then◌else◌,
  select,
}
use oracle_patching.Prelude.Text.{codes}
use oracle_patching.Exec.{Result, ok, err, and_then}
use oracle_patching.Remote.Quote.{Text}
use oracle_patching.Remote.Run.{RemoteError, remote_error}

-- A path below the checkout.
pub record ToolFile : Type 0 where
  pub rel : String
  pub is_file : Bool
  pub is_symlink : Bool
  pub in_pycache : Bool
  pub mode : ℕ
  pub content : Text

-- The checkout: `tree` is `sorted(base.rglob("*"))` of a directory that is there, `entry` the path of
-- a module below webapp/; `encode` is UTF-8, `sha256` gives hex digits.
pub record Checkout : Type 0 where
  pub tree : String → List ToolFile
  pub entry : String → ToolFile
  pub encode : String → Text
  pub sha256 : Text → Text

abbrev pub sync_dirs : List String
sync_dirs = "bin" ∷ "lib" ∷ "operations" ∷ []

abbrev pub runtime_modules : List String
runtime_modules =
    "adapters.py" ∷ "durable.py" ∷ "agent_queue.py" ∷ "agent_enroll.py" ∷ "agent_worker.py" ∷ []

unfoldable pub is_tool : ToolFile → Bool
is_tool e = e.is_file && not e.is_symlink && not e.in_pycache

unfoldable pub dir_files : Checkout → List String → List ToolFile
unfolding is_tool
dir_files c [] = []
dir_files c (d ∷ ds) = select is_tool (c.tree d) ++ dir_files c ds

unfoldable pub module_files : Checkout → List String → Result RemoteError (List ToolFile)
module_files c [] = ok []
module_files c (m ∷ ms) =
    let rest = and_then (module_files c ms) λ es. ok (c.entry m ∷ es) in
    if not (c.entry m).is_file || (c.entry m).is_symlink
    then err (
        remote_error (codes "incomplete_runtime")
          (codes "required runtime module is missing: " ++ codes m) (codes ""))
    else rest

-- `_tree_files` and `_snapshot_files`
unfoldable pub snapshot_files : Checkout → Result RemoteError (List ToolFile)
unfolding dir_files module_files
snapshot_files c = and_then (module_files c runtime_modules) λ es. ok (dir_files c sync_dirs ++ es)

-- `mode & 0o111`
unfoldable pub is_executable : ToolFile → Bool
is_executable e = bit_and e.mode 73 != 0

-- The bytes that are hashed: path, executable bit and content, with a zero byte after each.
unfoldable pub hashed : Checkout → List ToolFile → Text
unfolding is_executable
hashed c [] = []
hashed c (e ∷ es) =
    c.encode e.rel
    ++ (0 ∷ (if is_executable e then b'x' else b'-') ∷ 0 ∷ (e.content ++ (0 ∷ hashed c es)))

unfoldable pub local_fingerprint : Checkout → List ToolFile → Text
unfolding hashed
local_fingerprint c snapshot = c.sha256 (hashed c snapshot)
