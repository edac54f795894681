-- ===== src/Remote/Bounds.antt =====
-- What `pull_file` accepts of a remote file, and `reachable_from` of an answer.
use oracle_patching.Prelude.{
  ℕ, ◌≤◌, ◌≡◌, refl, ap, Bool, true, false, some, List, arith, nat_eq, length,
}
use oracle_patching.Exec.{ok, ensure, >>=-eq-ok, pure}
use oracle_patching.Remote.Quote.{Text}
use oracle_patching.Remote.Run.{RemoteError, Call, Env, refuse_if, bad_limit, too_large, pull_file}

-- A guard that returned did not refuse, and changed nothing.
refuse_if-eq-ok :
    (bad : Bool) (e : RemoteError) (s : List Call) {u : Unit {0}} {t : List Call}
    → refuse_if bad e s ≡ (ok u, t)
    → bad ≡ false
unfolding refuse_if ensure
refuse_if-eq-ok true e s h = cc
refuse_if-eq-ok false e s h = refl

pure-eq-ok : (a b : Text) (s t : List Call) → pure {E = RemoteError} a s ≡ (ok b, t) → a ≡ b
unfolding pure
pure-eq-ok a b s t h = cc

-- A read with a limit that returns was given a limit above 0 and returns no more bytes than it.
pub pull_file_bounded :
    (env : Env) (ssh_alias path : Text) (timeout : ℕ) (sudo : Bool) (limit : ℕ)
    (calls calls' : List Call) (content : Text)
    → pull_file env ssh_alias path timeout sudo (some limit) calls ≡ (ok content, calls')
    → (1 ≤ limit) × (length content ≤ limit)
unfolding pull_file bad_limit too_large
pull_file_bounded env ssh_alias path timeout sudo limit calls calls' content h =
    let (_, s1, e1, h1) = >>=-eq-ok _ _ _ h in
    let (result, s2, e2, h2) = >>=-eq-ok _ _ _ h1 in
    let (_, s3, e3, h3) = >>=-eq-ok _ _ _ h2 in
    let (_, s4, e4, h4) = >>=-eq-ok _ _ _ h3 in
    let above = refuse_if-eq-ok _ _ _ e1 in
    let small = refuse_if-eq-ok _ _ _ e4 in
    let same = pure-eq-ok _ _ _ _ h4 in ground (arith, ap length same)
