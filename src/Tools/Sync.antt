-- ===== src/Tools/Sync.antt =====
-- `_ensure_tools`, `ensure_tools` and `ensure_host_tools` of webapp/tools_sync.py. The locks make the
-- calls for one tree follow one another, which they do here.
use oracle_patching.Prelude.{
  ℕ, ◌-◌, String, ◌<>◌, Bool, true, false, not, ◌&&◌, ◌||◌, Option, none, some, List, [], ◌∷◌, ◌++◌,
  ltb, ◌==◌, nat_eq, string_eq, if◌then◌else◌, any, take, take_last, is_nil,
}
use oracle_patching.Prelude.Text.{
  codes, codes_eq, trim, is_blank, strip_slashes, pieces, starts_with,
}
use oracle_patching.Prelude.Text.Decimal.{decimal}
use oracle_patching.Prelude.Dict
use oracle_patching.Exec.{
  Exec, Result, ok, err, pure, raise, lift, gets, modify, ensure, ◌>>=◌, ◌>>◌,
}
use oracle_patching.Json.{Json, get, truthy, elements, text_or}
use oracle_patching.Phases.Values.{text}
use oracle_patching.Remote.Quote.{Text}
use oracle_patching.Remote.Run.{
  RemoteError, remote_error, Call, Completed, pull_file, push_file, run_remote_shell,
}
use oracle_patching.World.{World, Error, remote, fault, Action, over_ssh}
use oracle_patching.Tools.Fingerprint.{ToolFile, Checkout, snapshot_files, local_fingerprint}
use oracle_patching.Tools.Install.{install_script}

-- `now` is `time.monotonic()`, in seconds; `fresh` the hex digits of a new UUID; `text_of` decodes the
-- UTF-8 of a stamp.
pub record Env : Type 0 where
  pub ssh : oracle_patching.Remote.Run.Env
  pub checkout : Checkout
  pub tarball : List ToolFile → Text
  pub now : World → ℕ
  pub fresh : World → Text
  pub text_of : Text → Text
  -- Python's `repr`
  pub repr : Json → Text
  pub show : Json → String

pub record Summary : Type 0 where
  pub ssh_alias : String
  pub synced : Bool
  pub fingerprint : Text
  pub cached : Bool

abbrev pub sync_summary : String → Bool → Text → Bool → Summary
sync_summary ssh_alias synced want cached = record {
  ssh_alias = ssh_alias;
  synced = synced;
  fingerprint = want;
  cached = cached;
}

abbrev pub recheck_seconds : ℕ
recheck_seconds = 30

-- `not remote_root.startswith("/") or remote_root.rstrip("/") == "" or ".." in Path(remote_root).parts`
unfoldable pub bad_root : Text → Bool
bad_root root =
    not (starts_with (codes "/") root)
    || is_blank (strip_slashes root)
    || any (codes_eq (codes "..")) (pieces (λ c. c == b'/') [] root)

-- The entry of `_verified_at`, if it is still good for a fingerprint.
unfoldable pub is_current : Text → ℕ → Option (ℕ × Text) → Bool
is_current want now none = false
is_current want now (some last) = codes_eq last.1 want && ltb (now - last.0) recheck_seconds

unfoldable pub python_helper : List ToolFile → Option Text
python_helper [] = none
python_helper (e ∷ es) = if e.rel == "lib/opu/python.sh" then some e.content else python_helper es

-- `have`: the stamp of the host, and "" where it cannot be read.
unfoldable pub stamp_text : (Text → Text) → Result RemoteError Text → Text
stamp_text text_of (ok bytes) = trim (text_of bytes)
stamp_text text_of (err e) = []

module _ (env : Env) where
  unfoldable pub stamp_path : Text → Text
  stamp_path root = strip_slashes root ++ codes "/.opu-tools-fingerprint"

  unfoldable pub read_stamp : String → Text → Bool → Bool → Action Text
  unfolding stamp_path stamp_text
  read_stamp ssh_alias root sudo force w =
      let asked = pull_file env.ssh (codes ssh_alias) (stamp_path root) 30 sudo none w.calls in
      if force
      then (ok [], w)
      else (ok (stamp_text env.text_of asked.0), record w { calls = asked.1 })

  unfoldable pub remember : String → ℕ → Text → Action (Unit {0})
  remember key now want = modify (λ w. record w { verified = Dict.put key (now, want) w.verified })

  -- The detail of a failed installer.
  unfoldable pub failure_detail : Completed → Text
  failure_detail result =
      let said = if is_blank result.stderr then result.stdout else result.stderr in
      let detail = take_last 2000 (trim said) in
      if is_blank detail
      then codes "Installer exited with code "
        ++ codes (decimal result.returncode)
        ++ codes " without diagnostic output"
      else detail

  unfoldable pub sync_failed : String → Text → Completed → RemoteError
  unfolding failure_detail
  sync_failed ssh_alias root result =
      remote_error (codes "tools_sync_failed")
        (codes "Failed to install opu tools on "
          ++ codes ssh_alias
          ++ codes " under "
          ++ root
          ++ codes " (exit "
          ++ codes (decimal result.returncode)
          ++ codes "): "
          ++ take_last 700 (failure_detail result))
        (failure_detail result)

  no_helper : Error
  no_helper = remote (
      remote_error (codes "incomplete_runtime")
        (codes "required runtime helper is missing: lib/opu/python.sh") [])

  unfoldable pub install : String → Text → Bool → List ToolFile → Text → Text → Action (Unit {0})
  unfolding stamp_path install_script sync_failed
  install ssh_alias root sudo snapshot want helper = do
    id ← gets env.fresh
    let archive = codes "/tmp/opu-tools-" ++ take 16 want ++ codes "-" ++ id ++ codes ".tgz"
    _ ← over_ssh (push_file env.ssh (codes ssh_alias) archive (env.tarball snapshot) 180 false)
    result ← over_ssh (
        run_remote_shell env.ssh (codes ssh_alias)
          (install_script archive helper (strip_slashes root) (stamp_path root) want) 180 sudo)
    ensure (result.returncode == 0) (remote (sync_failed ssh_alias root result))

  -- The host's stamp differs, or the call is forced.
  unfoldable pub push_tree : String → String → Text → Bool → List ToolFile → Text → Action Summary
  unfolding python_helper install remember no_helper
  push_tree key ssh_alias root sudo snapshot want = do
    helper ← lift (oracle_patching.Exec.some_or no_helper (python_helper snapshot))
    _ ← install ssh_alias root sudo snapshot want helper
    now ← gets env.now
    _ ← remember key now want
    pure (sync_summary ssh_alias true want false)

  -- The stamp is read and compared.
  unfoldable pub compare_stamp :
      String → String → Text → Bool → Bool → List ToolFile → Text → ℕ → Action Summary
  unfolding read_stamp remember push_tree
  compare_stamp key ssh_alias root sudo force snapshot want now = do
    have ← read_stamp ssh_alias root sudo force
    let kept = remember key now want >> pure (sync_summary ssh_alias false want false)
    if codes_eq have want then kept else push_tree key ssh_alias root sudo snapshot want

  unfoldable pub lift_remote : {A : Type 0} → Result RemoteError A → Action A
  lift_remote (ok a) = pure a
  lift_remote (err e) = raise (remote e)

  unfoldable pub ensure_tools : String → String → Bool → Bool → Action Summary
  unfolding bad_root is_current compare_stamp lift_remote
  ensure_tools ssh_alias remote_root sudo force = do
    _ ← ensure (not (bad_root (codes remote_root))) (
        remote (
          remote_error (codes "invalid_host_config")
            (codes "remote_root must be absolute: " ++ env.repr (Json.str remote_root)) []))
    let key = ssh_alias <> ":" <> remote_root
    snapshot ← lift_remote (snapshot_files env.checkout)
    let want = local_fingerprint env.checkout snapshot
    now ← gets env.now
    last ← gets (λ w. Dict.get key w.verified)
    if not force && is_current want now last
        then pure (sync_summary ssh_alias false want true)
        else compare_stamp key ssh_alias (codes remote_root) sudo force snapshot want now

-- The aliases of `host["nodes"]`: only a list has objects in it.
unfoldable pub iterated : Json → Result Error (List Json)
iterated (Json.arr xs) = ok (elements xs)
iterated (Json.str s) = ok []
iterated (Json.obj fs) = ok []
iterated v = if truthy v then err fault else ok []

-- `alias not in aliases`
unfoldable pub is_new : Json → List String → Bool
is_new (Json.str s) aliases = not (any (λ a. a == s) aliases)
is_new v aliases = true

unfoldable pub node_aliases : (show : Json → String) → List Json → List String → List String
unfolding is_new
node_aliases show [] aliases = aliases
node_aliases show (node ∷ nodes) aliases =
    let found = get "ssh_alias" node in
    node_aliases show nodes
      (if truthy found && is_new found aliases then aliases ++ (text show found ∷ []) else aliases)

unfoldable pub with_top : (show : Json → String) → Json → List String → List String
unfolding is_new
with_top show top aliases =
    if truthy top && is_new top aliases then text show top ∷ aliases else aliases

module _ (env : Env) where
  unfoldable pub ensure_each : List String → String → Bool → Bool → Action (List Summary)
  ensure_each [] remote_root sudo force = pure []
  ensure_each (a ∷ aliases) remote_root sudo force =
      ensure_tools env a remote_root sudo force >>= λ s.
      ensure_each aliases remote_root sudo force >>= λ ss. pure (s ∷ ss)

  unfoldable pub ensure_host_tools : Json → Bool → Action (List Summary)
  unfolding iterated node_aliases with_top ensure_each
  ensure_host_tools host force = do
    nodes ← lift (iterated (get "nodes" host))
    let aliases = with_top env.show (get "ssh_alias" host) (node_aliases env.show nodes [])
    _ ← ensure (not (is_nil aliases)) (
        remote (
          remote_error (codes "invalid_host_config")
            (codes "Host " ++ env.repr (get "id" host) ++ codes " has no ssh_alias") []))
    ensure_each aliases (text_or env.show "" (get "remote_root" host)) (truthy (get "sudo" host))
        force
