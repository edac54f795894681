-- ===== src/Evidence/Store.antt =====
-- Names, reads, writes and removals of evidence. `Env.escapes` says whose directory resolves to a place
-- outside the evidence root, `Env.writable` whether a write succeeds, `Env.repr` is Python's `repr`
-- of a text.
use Prim.Native.Char.{code}
use Prim.Native.String.{String}
use oracle_patching.Prelude.{
  Bool, not, ◌&&◌, Option, none, some, ◌++◌, ◌==◌, nat_eq, string_eq, if◌then◌else◌,
}
use oracle_patching.Prelude.Text.{codes, id_match}
use oracle_patching.Exec.{Result, ok, err, pure, lift, gets, modify, ensure, ◌>>=◌, ◌>>◌}
use oracle_patching.Json.{Json}
use oracle_patching.Remote.Quote.{Text}
use oracle_patching.World.{
  File, absent, doc, garbled, link, is_file, is_symlink, set_file, World, Error, evidence_error,
  decode, os, Action,
}

pub record Env : Type 0 where
  pub escapes : String → Bool
  pub writable : World → String → String → Bool
  pub repr : String → Text

-- `^[A-Za-z0-9][A-Za-z0-9._:-]{0,127}$`
unfoldable pub is_id : String → Bool
unfolding id_match codes
is_id s = id_match 127 (codes s)

-- The document of a path that is a file.
unfoldable pub json_of_file : File → Result Error (Option Json)
json_of_file absent = ok none
json_of_file (doc j) = ok (some j)
json_of_file garbled = err decode
json_of_file (link none) = ok none
json_of_file (link (some j)) = ok (some j)

unfoldable pub removable : File → Bool
unfolding is_file is_symlink
removable f = is_file f && not (is_symlink f)

unfoldable pub cleared : String → String → World → World
unfolding removable set_file
cleared host_id name w = record w {
  files =
      if removable (w.files host_id name) then set_file host_id name absent w.files else w.files;
}

module _ (env : Env) where
  unfoldable pub validate_host_id : String → Action (Unit {0})
  unfolding is_id
  validate_host_id host_id =
      ensure (is_id host_id)
        (evidence_error (codes "host_id contains unsupported characters: " ++ env.repr host_id))

  unfoldable pub evidence_dir : String → Action (Unit {0})
  unfolding validate_host_id
  evidence_dir host_id =
      validate_host_id host_id
      >> ensure (not (env.escapes host_id))
          (evidence_error (codes "host_id escapes evidence root: " ++ env.repr host_id))

  unfoldable pub validate_evidence_name : String → Action (Unit {0})
  unfolding is_id
  validate_evidence_name name =
      ensure (is_id name)
        (evidence_error (codes "evidence name contains unsupported characters: " ++ env.repr name))

  -- `write_evidence`: the file is replaced whole, or not touched.
  unfoldable pub write_evidence : String → String → Json → Action (Unit {0})
  unfolding validate_evidence_name evidence_dir set_file
  write_evidence host_id name payload = do
    _ ← validate_evidence_name name
    _ ← evidence_dir host_id
    allowed ← gets (λ w. env.writable w host_id name)
    _ ← ensure allowed os
    modify (λ w. record w { files = set_file host_id name (doc payload) w.files })

  -- `evidence_path(host_id, name).is_file()`
  unfoldable pub has_evidence : String → String → Action Bool
  unfolding evidence_dir is_file
  has_evidence host_id name = evidence_dir host_id >> gets (λ w. is_file (w.files host_id name))

  unfoldable pub read_evidence : String → String → Action (Option Json)
  unfolding evidence_dir json_of_file
  read_evidence host_id name = do
    _ ← evidence_dir host_id
    file ← gets (λ w. w.files host_id name)
    lift (json_of_file file)

  -- `clear_evidence`; what it returns is whether there was a document to remove.
  unfoldable pub clear_evidence : String → String → Action Bool
  unfolding validate_evidence_name evidence_dir cleared
  clear_evidence host_id name = do
    _ ← validate_evidence_name name
    _ ← evidence_dir host_id
    was_there ← gets (λ w. removable (w.files host_id name))
    _ ← modify (cleared host_id name)
    pure was_there

-- `(name or "").split(".", 1)[0]`
unfoldable pub short_name : String → String
short_name String.[] = String.[]
short_name (String.◌∷◌ c s) = if code c == b'.' then String.[] else String.◌∷◌ c (short_name s)
