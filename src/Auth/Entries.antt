-- ===== src/Auth/Entries.antt =====
-- The entries that `_load_entries` returns are distinct identities with allowed roles.
use Prim.Native.String.{String}
use mathlib.Core.List.{Memᴰ}
use oracle_patching.Prelude.{
  ◌≡◌, ◌≢◌, sym, ap, subst, ◌∙◌, inl, inr, Bool, true, false, not, ◌||◌, Option, none, some, List,
  [], ◌∷◌, arith, eq_iff, ◌==◌, string_eq, if◌then◌else◌, any, mem-cases, ||-eq-false,
}
use oracle_patching.Prelude.Text.{codes, strip, is_hex}
use oracle_patching.Json
use oracle_patching.Json.{Json}
use oracle_patching.Exec.{
  ok, err, ok_inj, and_then-eq-ok, check, check-eq-ok, some_or, some_or-eq-ok,
}
use oracle_patching.Auth.Registry.{
  malformed_entry, invalid_identity, digest_required, has_digest, World, Principal, RegistryFile,
  registry_unsafe, registry_unreadable, registry_empty, rbac_enabled, mem_text, roles_of, digest_of,
  add_digest, actor_of, check_entry, check_entries, load_entries, missing, unsafe, unreadable,
  parsed,
}

-- What one entry that passed the checks is.
pub record Accepted (required : Bool) (actors digests : List String) (p : Principal) : Type 0 where
  pub named : (p.actor == "") ≡ false
  pub new : mem_text p.actor actors ≡ false
  pub role_names : (v : Json.Json) × (roles_of v ≡ some p.roles)
  pub digest : (v : Json.Json) × (digest_of digests v ≡ ok p.token_sha256)
  pub enough : (not required || has_digest p.token_sha256) ≡ true

check_entry-Accepted :
    (required : Bool) (actors digests : List String) (entry : Json) {p : Principal}
    → check_entry required actors digests entry ≡ ok p
    → Accepted required actors digests p
unfolding check_entry
check_entry-Accepted required actors digests entry h =
    let (name, named, h1) = and_then-eq-ok (some_or malformed_entry (actor_of entry)) _ h in
    let (_, fresh, h2) =
      and_then-eq-ok
        (check (not (strip name == "" || mem_text (strip name) actors)) invalid_identity) _ h1 in
    let (roles, roles_known, h3) =
      and_then-eq-ok (some_or invalid_identity (roles_of (Json.get "roles" entry))) _ h2 in
    let (digest, digest_known, h4) =
      and_then-eq-ok (digest_of digests (Json.get "token_sha256" entry)) _ h3 in
    let (_, enough, h5) =
      and_then-eq-ok (check (not required || has_digest digest) digest_required) _ h4 in
    let both = ||-eq-false (strip name == "") _ (ground (arith, check-eq-ok _ _ fresh)) in
    subst (Accepted required actors digests) (ok_inj _ _ h5) (record {
      named = both.0;
      new = both.1;
      role_names = (Json.get "roles" entry, some_or-eq-ok _ _ roles_known);
      digest = (Json.get "token_sha256" entry, digest_known);
      enough = check-eq-ok _ _ enough;
    })

-- The entries after those with the actors and digests seen.
pub data Distinct (required : Bool) : (actors digests : List String) → List Principal → Type 0 where
  no_more : {actors digests : List String} → Distinct required actors digests []
  more :
      {actors digests : List String} {ps : List Principal}
      → (p : Principal) → Accepted required actors digests p
      → Distinct required (p.actor ∷ actors) (add_digest p.token_sha256 digests) ps
      → Distinct required actors digests (p ∷ ps)

check_entries-Distinct :
    (required : Bool) (vs : List Json) (actors digests : List String) (ps : List Principal)
    → check_entries required actors digests vs ≡ ok ps
    → Distinct required actors digests ps
unfolding check_entries
check_entries-Distinct required [] actors digests ps h =
    subst (Distinct required actors digests) (ok_inj _ _ h) no_more
check_entries-Distinct required (v ∷ vs) actors digests ps h =
    let (p, first, h1) = and_then-eq-ok (check_entry required actors digests v) _ h in
    let (rest, others, h2) =
      and_then-eq-ok
        (check_entries required (p.actor ∷ actors) (add_digest p.token_sha256 digests) vs) _ h1 in
    subst (Distinct required actors digests) (ok_inj _ _ h2) (
      more p (check_entry-Accepted required actors digests v first)
        (check_entries-Distinct required vs _ _ rest others))

digest_of-new :
    (seen : List String) (v : Json) (d : String)
    → digest_of seen v ≡ ok (some d)
    → (mem_text d seen ≡ false) × (is_hex 64 (codes d) ≡ true)
unfolding digest_of
digest_of-new seen Json.null d h = cc
digest_of-new seen (Json.bool b) d h = cc
digest_of-new seen (Json.int n) d h = cc
digest_of-new seen (Json.neg n) d h = cc
digest_of-new seen (Json.real s w f) d h = cc
digest_of-new seen (Json.str t) d h = (ground arith, ground arith)
digest_of-new seen (Json.arr vs) d h = cc
digest_of-new seen (Json.obj fs) d h = cc

seen-add :
    (d : String) (o : Option String) (ds : List String)
    → mem_text d ds ≡ true
    → mem_text d (add_digest o ds) ≡ true
unfolding add_digest mem_text any
seen-add d none ds h = h
seen-add d (some e) ds h = ground (arith, h)

pub seen_self :
    (d : String) (o : Option String) (ds : List String)
    → o ≡ some d
    → mem_text d (add_digest o ds) ≡ true
unfolding add_digest mem_text any
seen_self d none ds h = cc
seen_self d (some e) ds h = ground (arith, eq_iff e d)

-- A digest seen before is none of a later entry.
pub later_digest :
    (required : Bool) (ps : List Principal) (actors digests : List String) (d : String)
    → Distinct required actors digests ps
    → mem_text d digests ≡ true
    → (p : Principal) → Memᴰ p ps
    → p.token_sha256 ≢ some d
later_digest required [] actors digests d no_more seen p m e = elim m [ ]
later_digest required (_ ∷ ps) actors digests d (more p0 a rest) seen p m e = elim (mem-cases m) [
  | inl same ↦ cc (
    seen,
    (digest_of-new digests a.digest.0 d
        (a.digest.1 ∙ ap ok (sym (ap (λ (x : Principal). x.token_sha256) same) ∙ e))).0,
  )
  | inr m' ↦
      later_digest required ps (p0.actor ∷ actors) (add_digest p0.token_sha256 digests) d rest
        (seen-add d p0.token_sha256 digests seen) p m' e
]

-- The digest of an entry is a SHA-256 value.
pub digest_hex :
    (required : Bool) (ps : List Principal) (actors digests : List String) (d : String)
    → Distinct required actors digests ps
    → (p : Principal) → Memᴰ p ps
    → p.token_sha256 ≡ some d
    → is_hex 64 (codes d) ≡ true
digest_hex required [] actors digests d no_more p m e = elim m [ ]
digest_hex required (_ ∷ ps) actors digests d (more p0 a rest) p m e = elim (mem-cases m) [
  | inl same ↦
      (digest_of-new digests a.digest.0 d
        (a.digest.1 ∙ ap ok (sym (ap (λ (x : Principal). x.token_sha256) same) ∙ e))).1
  | inr m' ↦
      digest_hex required ps (p0.actor ∷ actors) (add_digest p0.token_sha256 digests) d rest p m' e
]

-- A registry that loads has distinct entries.
pub load_entries-Distinct :
    (w : World) (required : Bool) (ps : List Principal)
    → load_entries w required ≡ ok ps
    → Distinct required [] [] ps
unfolding load_entries
load_entries-Distinct w required ps h = go w.registry h
  where
    guarded :
        (b : Bool) → (if b then err registry_unsafe else ok []) ≡ ok ps → Distinct required [] [] ps
    guarded true h = cc
    guarded false h = subst (Distinct required [] []) (ok_inj _ _ h) no_more

    listed :
        (v : Json)
        → (elim v [
          | Json.arr (Json.cons x xs) ↦
              check_entries required [] [] (Json.elements (Json.cons x xs))
          | x ↦ err registry_empty
        ])
          ≡ ok ps
        → Distinct required [] [] ps
    listed (Json.arr (Json.cons x xs)) h =
        check_entries-Distinct required (Json.elements (Json.cons x xs)) [] [] ps h
    listed (Json.arr Json.nil) h = cc
    listed Json.null h = cc
    listed (Json.bool b) h = cc
    listed (Json.int n) h = cc
    listed (Json.neg n) h = cc
    listed (Json.real a b c) h = cc
    listed (Json.str t) h = cc
    listed (Json.obj fs) h = cc

    go :
        (f : RegistryFile)
        → (elim f [
          | missing ↦ if required || rbac_enabled w then err registry_unsafe else ok []
          | unsafe ↦ if required || rbac_enabled w then err registry_unsafe else ok []
          | unreadable ↦ err registry_unreadable
          | parsed v ↦ elim (Json.get "principals" v) [
            | Json.arr (Json.cons x xs) ↦
                check_entries required [] [] (Json.elements (Json.cons x xs))
            | x ↦ err registry_empty
          ]
        ])
          ≡ ok ps
        → Distinct required [] [] ps
    go missing h = guarded (required || rbac_enabled w) h
    go unsafe h = guarded (required || rbac_enabled w) h
    go unreadable h = cc
    go (parsed v) h = listed (Json.get "principals" v) h
