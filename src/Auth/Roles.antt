-- ===== src/Auth/Roles.antt =====
-- Who may do what, role by role, where the principal registry is in force.
use Prim.Native.String.{String}
use mathlib.Core.List.{Memᴰ}
use oracle_patching.Prelude.{
  ◌≡◌, refl, sym, ap, subst, ◌∙◌, ◌⊎◌, inl, inr, Bool, true, false, Option, some, List, [], ◌∷◌,
  eq_iff, ◌==◌, string_eq, if◌then◌else◌, Bool-cases, any, all, all-eq-true, select-mem, map,
}
use oracle_patching.Prelude.Text.{strip}
use oracle_patching.Prelude.Dict
use oracle_patching.Exec.{
  Result, ok, err, ok_inj, and_then-eq-ok, check-eq-ok, some_or, some_or-eq-ok,
}
use oracle_patching.Auth.{add_roles, role_table, load_principals, require_role, named, meets_role}
use oracle_patching.Auth.Registry.{
  AuthError, World, Principal, rbac_enabled, load_entries, mem_text, role_needs, action_roles,
  unknown_action, actor_required, not_a_principal,
}

-- What the holder of a role may do.
unfoldable pub permissions : String → List String
permissions role =
    if role == "viewer"
    then "read" ∷ []
    else if role == "requester"
    then "read" ∷ "create" ∷ []
    else if role == "approver"
    then "read" ∷ "approve" ∷ []
    else if role == "operator"
    then "read" ∷ "authorize" ∷ "dispatch" ∷ "execute" ∷ "agent" ∷ []
    else if role == "admin"
    then "read" ∷ "create" ∷ "approve" ∷ "authorize" ∷ "dispatch" ∷ "execute" ∷ "agent" ∷ []
    else []

any-mem :
    {A : Type 0} (p : A → Bool) (xs : List A) → any p xs ≡ true → (a : A) × Memᴰ a xs × (p a ≡ true)
unfolding any
any-mem p [] h = cc
any-mem p (x ∷ xs) h = elim (Bool-cases (p x)) [
  | inl t ↦ (x, Memᴰ.head refl, t)
  | inr f ↦ let (a, m, t) = any-mem p xs (rw f at h) in (a, Memᴰ.tail m, t)
]

mem_text-mem : (t : String) (ts : List String) → mem_text t ts ≡ true → Memᴰ t ts
unfolding mem_text
mem_text-mem t ts h =
    let (u, m, e) = any-mem (λ u. u == t) ts h in subst (λ x. Memᴰ x ts) ((eq_iff u t).0 e) m

get-mem :
    {T : Type 0} (k : String) (d : List (String × T)) (v : T)
    → Dict.get k d ≡ some v
    → Memᴰ (k, v) d
unfolding Dict.get
get-mem {T = T} k [] v h = cc
get-mem {T = T} k ((j, w) ∷ d) v h = elim (Bool-cases (j == k)) [
  | inl t ↦ Memᴰ.head (pair_eq k j v w (sym ((eq_iff j k).0 t)) (some_inj v w (rw t at h)))
  | inr f ↦ Memᴰ.tail (get-mem k d v (rw f at h))
]
  where
    some_inj : (a b : T) → ◌≡◌ {A = Option T} (some b) (some a) → a ≡ b
    some_inj a b e = cc

    pair_eq : (a b : String) (x y : T) → a ≡ b → x ≡ y → ◌≡◌ {A = String × T} (a, x) (b, y)
    pair_eq a b x y e f = cc

-- The table of actions gives no role more than its permissions.
action_roles-permissions :
    (action role : String) (needed : List String)
    → action_roles action ≡ some needed
    → mem_text role needed ≡ true
    → mem_text action (permissions role) ≡ true
unfolding action_roles role_needs all permissions mem_text any
action_roles-permissions action role needed known h =
    all-eq-true (λ r. mem_text action (permissions r)) needed role
      (all-eq-true (λ (row : String × List String). all (λ r. mem_text row.0 (permissions r)) row.1)
        role_needs (action, needed) refl (get-mem action role_needs needed known))
      (mem_text-mem role needed h)

-- Where the roles of an actor in the table come from.
abbrev From : List Principal → String → List String → Type 0
From ps a roles =
    (p : Principal) × Memᴰ p ps
    × (strip p.actor ≡ a)
    × ((role : String) → Memᴰ role roles → Memᴰ role (map strip p.roles))

add_roles-From :
    (p : Principal) (a : String) (roles given : List String) (out : List (String × List String))
    → ((role : String) → Memᴰ role given → Memᴰ role (map strip p.roles))
    → Dict.get a (add_roles (strip p.actor) given out) ≡ some roles
    → (Dict.get a out ≡ some roles) ⊎ From (p ∷ []) a roles
unfolding add_roles
add_roles-From p a roles [] out from h = inl h
add_roles-From p a roles (r ∷ rs) out from h = elim (Bool-cases (strip p.actor == "")) [
  | inl t ↦ inl (rw t at h)
  | inr f ↦
      let stored = sym (Dict.get-put (strip p.actor) a (r ∷ rs) out) ∙ (rw f at h) in
      elim (Bool-cases (strip p.actor == a)) [
        | inl e ↦ inr (
          p,
          Memᴰ.head refl,
          (eq_iff _ _).0 e,
          subst (λ rs'. (role : String) → Memᴰ role rs' → Memᴰ role (map strip p.roles))
              (some_inj (r ∷ rs) roles (rw e at stored)) from,
        )
        | inr n ↦ inl (rw n at stored)
      ]
]
  where
    some_inj : (x y : List String) → ◌≡◌ {A = Option (List String)} (some x) (some y) → x ≡ y
    some_inj x y e = cc

role_table-From :
    (ps : List Principal) (a : String) (roles : List String) (out : List (String × List String))
    → Dict.get a (role_table ps out) ≡ some roles
    → (Dict.get a out ≡ some roles) ⊎ From ps a roles
unfolding role_table
role_table-From [] a roles out h = inl h
role_table-From (p ∷ ps) a roles out h = elim (role_table-From ps a roles _ h) [
  | inr (q, m, e, from) ↦ inr (q, Memᴰ.tail m, e, from)
  | inl first ↦
      elim (add_roles-From p a roles _ out
        (λ role m. (select-mem (λ r. if r == "" then false else true) (map strip p.roles) role m).0)
        first) [ inl old ↦ inl old | inr (q, m, e, from) ↦ inr (q, only m, e, from) ]
]
  where
    only : {q : Principal} → Memᴰ q (p ∷ []) → Memᴰ q (p ∷ ps)
    only (Memᴰ.head e) = Memᴰ.head e
    only (Memᴰ.tail m) = elim m [ ]

load_principals-From :
    (w : World) (a : String) (roles : List String) (table : List (String × List String))
    → load_principals w ≡ ok table
    → Dict.get a table ≡ some roles
    → (ps : List Principal) × (load_entries w false ≡ ok ps) × From ps a roles
unfolding load_principals
load_principals-From w a roles table h found = go (load_entries w false) refl h
  where
    go :
        (r : Result AuthError (List Principal))
        → load_entries w false ≡ r
        → ◌≡◌ {A = Result AuthError (List (String × List String))}
            (elim r [ err e ↦ err e | ok es ↦ ok (role_table es []) ])
            (ok table)
        → (ps : List Principal) × (load_entries w false ≡ ok ps) × From ps a roles
    go (err e) st k = cc
    go (ok ps) st k =
        elim (role_table-From ps a roles [] (ap (Dict.get a) (ok_inj _ _ k) ∙ found)) [
          | inl none_there ↦ cc (none_there, Dict.get-nil {V = List String} a)
          | inr from ↦ (ps, st, from)
        ]

-- Where the principal registry is in force, an action is allowed to a named actor only who has an
-- entry in the registry, with a role of that entry that has the permission of the action.
pub require_role-permits :
    (w : World) (actor : Option String) (action : String)
    → rbac_enabled w ≡ true
    → require_role w actor action ≡ ok tt
    → (a : String) × (ps : List Principal) × (p : Principal) × (role : String) × (named actor
        ≡ some a)
      × (load_entries w false ≡ ok ps)
      × Memᴰ p ps
      × (strip p.actor ≡ a)
      × Memᴰ role (map strip p.roles)
      × (mem_text action (permissions role) ≡ true)
unfolding require_role meets_role
require_role-permits w actor action enabled h =
    let (needed, known, h1) =
      and_then-eq-ok (some_or unknown_action (action_roles action)) _ (rw enabled at h) in
    let (a, is_named, h2) = and_then-eq-ok (some_or actor_required (named actor)) _ h1 in
    let (table, loaded, h3) = and_then-eq-ok (load_principals w) _ h2 in
    let (roles, found, h4) = and_then-eq-ok (some_or not_a_principal (Dict.get a table)) _ h3 in
    let (ps, entries, origin) =
      load_principals-From w a roles table loaded (some_or-eq-ok _ _ found) in
    let (p, m, same, from) = origin in
    let (role, has, fits) = any-mem (λ r. mem_text r needed) roles (check-eq-ok _ _ h4) in
    (
      a,
      ps,
      p,
      role,
      some_or-eq-ok _ _ is_named,
      entries,
      m,
      same,
      from role has,
      action_roles-permissions action role needed (some_or-eq-ok _ _ known) fits,
    )
