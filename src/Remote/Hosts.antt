-- ===== src/Remote/Hosts.antt =====
-- Which of a host's addresses another host reaches: `host_ips` and `reachable_from` of
-- webapp/remote.py.
use oracle_patching.Prelude.{
  ℕ, suc, Bool, true, false, not, ◌&&◌, ◌||◌, Option, none, some, List, [], ◌∷◌, ◌++◌, ltb, ◌==◌,
  nat_eq, if◌then◌else◌, any, all, select, last,
}
use oracle_patching.Prelude.Text.{codes, codes_eq, is_space, is_digit, is_blank, pieces, trim}
use oracle_patching.Prelude.Text.Decimal.{decimal}
use oracle_patching.Exec.{Result, ok, err, pure, lift, ◌>>=◌}
use oracle_patching.Remote.Quote.{Text, join}
use oracle_patching.Remote.Run.{RemoteError, Env, Action, remote_error, run_remote_shell}

-- `text.count(".")`
unfoldable pub dots : Text → ℕ
dots [] = 0
dots (c ∷ cs) = let rest = dots cs in if c == b'.' then suc rest else rest

unfoldable pub not_dot : ℕ → Bool
not_dot c = if c == b'.' then false else true

unfoldable pub counts_as_digit : Env → ℕ → Bool
counts_as_digit env c = is_digit c || (ltb 127 c && env.other_digit c)

-- `text.isdigit()`
unfoldable pub is_all_digits : Env → Text → Bool
unfolding counts_as_digit
is_all_digits env text = not (is_blank text) && all (counts_as_digit env) text

-- `ip.count(".") == 3 and ip.replace(".", "").isdigit()`
unfoldable pub is_ip : Env → Text → Bool
unfolding dots not_dot is_all_digits
is_ip env ip = dots ip == 3 && is_all_digits env (select not_dot ip)

-- `text.split()`
unfoldable pub split : Text → List Text
split text = select (λ p. not (is_blank p)) (pieces is_space [] text)

unfoldable pub host_ips : Env → Text → ℕ → Action (List Text)
unfolding is_ip split
host_ips env ssh_alias timeout = do
  result ←
      run_remote_shell env ssh_alias (codes "hostname -I 2>/dev/null || hostname -i") timeout false
  pure (select (is_ip env) (split result.stdout))

-- The characters at which `str.splitlines` splits.
unfoldable pub is_break : ℕ → Bool
is_break c =
    c == 10
    || c == 11
    || c == 12
    || c == 13
    || c == 28
    || c == 29
    || c == 30
    || c == 133
    || c == 8232
    || c == 8233

-- `text.strip().splitlines()[-1].strip() if text.strip() else ""`
unfoldable pub last_line : Text → Text
unfolding is_break
last_line text = elim (last (pieces is_break [] (trim text))) [ none ↦ [] | some line ↦ trim line ]

unfoldable pub reach_script : List Text → ℕ → Text
reach_script candidates port =
    codes "for ip in "
    ++ join candidates
    ++ codes "; do if timeout 4 bash -c \"cat </dev/null >/dev/tcp/$ip/"
    ++ codes (decimal port)
    ++ codes "\" 2>/dev/null; then echo \"$ip\"; exit 0; fi; done; exit 1"

unfoldable pub answer_of : List Text → ℕ → Text → Option Text
unfolding last_line
answer_of candidates returncode stdout =
    let ip = last_line stdout in
    if returncode == 0 && any (codes_eq ip) candidates then some ip else none

-- The loop that refuses the first candidate that is no address; `repr` is that of a text.
unfoldable pub check_candidates :
    (repr : Text → Text) → Env → List Text → Result RemoteError (Unit {0})
unfolding is_ip
check_candidates repr env [] = ok tt
check_candidates repr env (ip ∷ ips) =
    if is_ip env ip
    then check_candidates repr env ips
    else err (remote_error (codes "invalid_input") (codes "not an IPv4 address: " ++ repr ip) [])

unfoldable pub reachable_from :
    (repr : Text → Text) → Env → Text → List Text → ℕ → ℕ → Action (Option Text)
unfolding check_candidates reach_script answer_of
reachable_from repr env ssh_alias [] port timeout = pure none
reachable_from repr env ssh_alias (c ∷ cs) port timeout = do
  _ ← lift (check_candidates repr env (c ∷ cs))
  result ← run_remote_shell env ssh_alias (reach_script (c ∷ cs) port) timeout false
  pure (answer_of (c ∷ cs) result.returncode result.stdout)
