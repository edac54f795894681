-- ===== src/Auth/Access.antt =====
-- Who is authenticated, and who is allowed what, where the principal registry is in force.
use Prim.Native.String.{String}
use mathlib.Core.List.{Memᴰ}
use oracle_patching.Prelude.{
  ◌≡◌, ◌≢◌, refl, sym, ap, subst, ◌∙◌, inl, inr, Bool, true, false, ◌&&◌, Option, none, some, List,
  [], ◌∷◌, arith, eq_iff, ◌==◌, string_eq, if◌then◌else◌, Bool-cases, select, select-mem, mem-cases,
}
use oracle_patching.Prelude.Text.{codes, is_hex}
use oracle_patching.Exec.{Result, ok, ok_inj, lift, and_then-eq-ok, some_or, some_or-eq-ok}
use oracle_patching.Auth.{
  TokenState, extract_bearer, is_match, matches, only_match, principal_of, require_api_auth, named,
}
use oracle_patching.Auth.Registry.{
  AuthError, World, Principal, rbac_enabled, load_entries, add_digest, missing_credential,
}
use oracle_patching.Auth.Entries.{
  Distinct, no_more, more, later_digest, seen_self, digest_hex, load_entries-Distinct,
}

is_match-some : (d : String) (p : Principal) → is_match d p ≡ true → p.token_sha256 ≡ some d
unfolding is_match
is_match-some d p h = go p.token_sha256 h
  where
    go :
        (o : Option String)
        → (elim o [ none ↦ false | some e ↦ (if e == "" then false else true) && d == e ]) ≡ true
        → o ≡ some d
    go none h = cc
    go (some e) h = ap some (sym ((eq_iff d e).0 (ground arith)))

is_match-true :
    (d : String) (p : Principal) → (d == "") ≡ false → p.token_sha256 ≡ some d → is_match d p ≡ true
unfolding is_match
is_match-true d p n h = rw (h, n) ((eq_iff d d).1 refl)

no_matches :
    (d : String) (ps : List Principal)
    → ((p : Principal) → Memᴰ p ps → p.token_sha256 ≢ some d)
    → matches d ps ≡ []
unfolding matches select
no_matches d [] h = refl
no_matches d (p ∷ ps) h = elim (Bool-cases (is_match d p)) [
  | inl t ↦ absurd (h p (Memᴰ.head refl) (is_match-some d p t))
  | inr f ↦ rw f (no_matches d ps (λ q m. h q (Memᴰ.tail m)))
]

-- Distinct entries have at most one match.
only_one :
    (required : Bool) (ps : List Principal) (actors digests : List String) (d : String)
    → Distinct required actors digests ps
    → (d == "") ≡ false
    → (p : Principal) → Memᴰ p ps
    → p.token_sha256 ≡ some d
    → matches d ps ≡ p ∷ []
unfolding matches select
only_one required [] actors digests d no_more n p m e = elim m [ ]
only_one required (_ ∷ ps) actors digests d (more p0 a rest) n p m e =
    let later =
      later_digest required ps (p0.actor ∷ actors) (add_digest p0.token_sha256 digests) d rest in
    elim (mem-cases m) [
      | inl same ↦
          let e0 : p0.token_sha256 ≡ some d =
            sym (ap (λ (x : Principal). x.token_sha256) same) ∙ e in
          rw
            (
              is_match-true d p0 n e0,
              no_matches d ps (later (seen_self d p0.token_sha256 digests e0)),
            )
            (ap (λ x. x ∷ []) (sym same))
      | inr m' ↦ elim (Bool-cases (is_match d p0)) [
        | inl t ↦ absurd (later (seen_self d p0.token_sha256 digests (is_match-some d p0 t)) p m' e)
        | inr f ↦ rw f (
            only_one required ps (p0.actor ∷ actors) (add_digest p0.token_sha256 digests) d rest n p
              m' e)
      ]
    ]

hex_non_empty : (d : String) → is_hex 64 (codes d) ≡ true → (d == "") ≡ false
unfolding is_hex codes
hex_non_empty d h = elim (Bool-cases (d == "")) [
  | inl t ↦ absurd (cc (subst (λ x. is_hex 64 (codes x) ≡ true) ((eq_iff d "").0 t) h))
  | inr f ↦ f
]

module _ (sha256 : String → String) (env_token generated : String) (w : World)
    (header : Option String) (s : TokenState) (enabled : rbac_enabled w ≡ true) where
  -- Where the principal registry is in force and loads: the holder of a token whose digest is that of
  -- an entry is authenticated as that entry's actor.
  pub require_api_auth-accepts :
      (t : String) (ps : List Principal) (p : Principal)
      → extract_bearer header ≡ some t
      → load_entries w true ≡ ok ps
      → Memᴰ p ps
      → p.token_sha256 ≡ some (sha256 t)
      → require_api_auth sha256 env_token generated w header s ≡ (ok (some p.actor), s)
  unfolding require_api_auth principal_of lift only_match
  require_api_auth-accepts t ps p bearer loaded m e =
      let distinct = load_entries-Distinct w true ps loaded in
      let single =
        only_one true ps [] [] (sha256 t) distinct
          (hex_non_empty (sha256 t) (digest_hex true ps [] [] (sha256 t) distinct p m e)) p m e in
      rw (enabled, bearer, loaded, single) refl

only_match-eq-ok :
    (l : List Principal) (who : Option String)
    → only_match l ≡ ok who
    → (p : Principal) × (l ≡ p ∷ []) × (who ≡ some p.actor)
unfolding only_match
only_match-eq-ok [] who h = cc
only_match-eq-ok (p ∷ []) who h = (p, refl, sym (ok_inj _ _ h))
only_match-eq-ok (p ∷ q ∷ l) who h = cc

module _ (sha256 : String → String) (env_token generated : String) (w : World)
    (header : Option String) (s : TokenState) where
  -- Where the principal registry is in force, a request that is authenticated carries a bearer token
  -- whose digest is that of an entry of the registry, and is given that entry's actor; the shared
  -- token is neither read nor made.
  pub require_api_auth_sound :
      (who : Option String) (s' : TokenState)
      → rbac_enabled w ≡ true
      → require_api_auth sha256 env_token generated w header s ≡ (ok who, s')
      → (t : String) × (ps : List Principal) × (p : Principal) × (extract_bearer header ≡ some t)
        × (load_entries w true ≡ ok ps)
        × Memᴰ p ps
        × (p.token_sha256 ≡ some (sha256 t))
        × (who ≡ some p.actor)
        × (s' ≡ s)
  unfolding require_api_auth principal_of lift matches
  require_api_auth_sound who s' enabled h =
      let h0 = rw enabled at h in
      let answer : principal_of sha256 w (extract_bearer header) ≡ ok who =
        ap (λ (x : Result AuthError (Option String) × TokenState). x.0) h0 in
      let (ps, loaded, h1) = and_then-eq-ok (load_entries w true) _ answer in
      let (t, bearer, h2) =
        and_then-eq-ok (some_or missing_credential (extract_bearer header)) _ h1 in
      let (p, single, named) = only_match-eq-ok (matches (sha256 t) ps) who h2 in
      let (member, match) =
        select-mem (is_match (sha256 t)) ps p
          (subst (λ l. Memᴰ p l) (sym single) (Memᴰ.head refl)) in
      (
        t,
        ps,
        p,
        some_or-eq-ok _ _ bearer,
        loaded,
        member,
        is_match-some (sha256 t) p match,
        named,
        sym (ap (λ (x : Result AuthError (Option String) × TokenState). x.1) h0),
      )
