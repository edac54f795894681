-- ===== src/Remote/Withdrawn.antt =====
-- The key of a direct transfer is withdrawn however the transfer ends.
use oracle_patching.Prelude.{
  ℕ, ◌≡◌, refl, sym, ap, ◌∙◌, Bool, true, false, ◌||◌, Option, none, some, arith, List, [], ◌∷◌,
  ◌++◌, ◌==◌, nat_eq, if◌then◌else◌, all, &&-eq-true, is_nil,
}
use oracle_patching.Prelude.Text.{codes, codes_eq, is_alnum, trim}
use oracle_patching.Exec.{Result, ok, err, ◌>>=◌, >>=-eq-ok}
use oracle_patching.Remote.Quote.{Text, quote, command}
use oracle_patching.Remote.Run.{
  RemoteError, Call, Completed, call, Env, with_sudo, run_ssh, run_remote_shell, refuse_if,
}
use oracle_patching.Remote.Transfer.{
  made, Transfer, auth_line, authorise_script, remove_script, quietly, authorise, forget_key,
  withdraw, clean_up, closing, after_authorise, run_transfer, or_root, transfer_of, with_keys,
  direct_transfer,
}

-- The text stands at the end of the line.
unfoldable pub ends_with : Text → Text → Bool
ends_with m [] = codes_eq m []
ends_with m (c ∷ cs) = let later = ends_with m cs in codes_eq m (c ∷ cs) || later

-- A character that stands for itself in a pattern of sed.
unfoldable pub is_plain : ℕ → Bool
is_plain c = is_alnum c || c == 45

unfoldable pub onto : ℕ → Option Text → Option Text
onto c none = none
onto c (some m) = some (c ∷ m)

-- The pattern of a program `/…$/d` behind its first slash.
unfoldable pub anchored : Text → Option Text
anchored [] = none
anchored (c ∷ cs) =
    let rest = onto c (anchored cs) in
    if codes_eq (c ∷ cs) (codes "$/d") then some [] else if is_plain c then rest else none

-- Whether the sed program `/…$/d` deletes a line.
unfoldable pub sed_deletes : Text → Text → Bool
sed_deletes [] line = false
sed_deletes (c ∷ program) line =
    if c == 47 then elim (anchored program) [ none ↦ false | some m ↦ ends_with m line ] else false

codes_eq_refl : (t : Text) → codes_eq t t ≡ true
unfolding codes_eq
codes_eq_refl [] = refl
codes_eq_refl (c ∷ cs) = ground (arith, codes_eq_refl cs)

ends_with_self : (m : Text) → ends_with m m ≡ true
unfolding ends_with
ends_with_self [] = codes_eq_refl []
ends_with_self (c ∷ cs) = rw (codes_eq_refl (c ∷ cs)) refl

ends_with-later : (m before t : Text) → ends_with m t ≡ true → ends_with m (before ++ t) ≡ true
unfolding ends_with
ends_with-later m [] t h = h
ends_with-later m (c ∷ cs) t h = rw (ends_with-later m cs t h) (ground arith)

not-dollar : (c : ℕ) → is_plain c ≡ true → (c == 36) ≡ false
unfolding is_plain is_alnum
not-dollar c h = ground (arith, h)

anchored-plain : (m : Text) → all is_plain m ≡ true → anchored (m ++ codes "$/d") ≡ some m
unfolding anchored codes codes_eq all onto
anchored-plain [] h = refl
anchored-plain (c ∷ cs) h =
    let (now, later) = &&-eq-true (is_plain c) (all is_plain cs) h in
    rw (not-dollar c now, now, anchored-plain cs later) refl

sed_deletes-marker :
    (m line : Text)
    → all is_plain m ≡ true
    → sed_deletes (codes "/" ++ m ++ codes "$/d") line ≡ ends_with m line
unfolding sed_deletes codes
sed_deletes-marker m line h = rw (anchored-plain m h) refl

run-log :
    (env : Env) (c : Call) (e : RemoteError) (calls : List Call)
    → (run_ssh env c e calls).1 ≡ c ∷ calls
unfolding run_ssh
run-log env c e calls = ground arith

refuse-same : (bad : Bool) (e : RemoteError) (calls : List Call) → (refuse_if bad e calls).1 ≡ calls
unfolding refuse_if oracle_patching.Exec.ensure
refuse-same true e calls = refl
refuse-same false e calls = refl

-- The process that runs a script on a host.
abbrev pub script_on : Text → Text → ℕ → Call
script_on ssh_alias script timeout = call ssh_alias (codes "bash -c " ++ quote script) [] timeout

-- The process appends the line to the keys that the destination accepts.
pub record Authorises (ssh_alias line : Text) (c : Call) : Type 0 where
  pub setup : Text
  pub appends :
      c
      ≡ script_on ssh_alias
          (setup ++ codes "; printf '%s\\n' " ++ quote line ++ codes " >> ~/.ssh/authorized_keys")
          45

-- The process deletes the line from these keys, and of other lines those only that end in the marker.
pub record Withdraws (ssh_alias line marker : Text) (c : Call) : Type 0 where
  pub program : Text
  pub after : Text
  pub runs :
      c
      ≡ script_on ssh_alias
          (codes "sed -i.opu-bak " ++ quote program ++ (codes " ~/.ssh/authorized_keys" ++ after))
          30
  pub deletes : sed_deletes program line ≡ true
  pub spares : (other : Text) → sed_deletes program other ≡ ends_with marker other

-- The line of a key with the comment ends in that comment.
auth_line-ends :
    (src_ips : List Text) (forced pubkey key marker : Text)
    → pubkey ≡ key ++ marker
    → ends_with marker (auth_line src_ips forced pubkey) ≡ true
unfolding auth_line
auth_line-ends src_ips forced pubkey key marker h =
    let ending : ends_with marker pubkey ≡ true =
      ap (ends_with marker) h ∙ ends_with-later marker key marker (ends_with_self marker) in
    ends_with-later marker _ pubkey ending

authorise-Authorises :
    (env : Env) (t : Transfer) (calls calls' : List Call)
    → authorise env t calls ≡ (ok tt, calls')
    → (c : Call) × (calls' ≡ c ∷ calls) × Authorises t.dst_alias t.line c
unfolding authorise authorise_script run_remote_shell codes
authorise-Authorises env t calls calls' h =
    let (res, calls1, ran, h1) =
      >>=-eq-ok (run_remote_shell env t.dst_alias (authorise_script t.line) 45 false) _ calls h in
    (
      script_on t.dst_alias (authorise_script t.line) 45,
      sym (ap (λ (x : Result RemoteError (Unit {0}) × List Call). x.1) h1)
          ∙ refuse-same _ _ calls1
          ∙ sym (ap (λ (x : Result RemoteError Completed × List Call). x.1) ran)
          ∙ run-log env _ _ _,
      record {
        setup =
            codes
              "umask 077; mkdir -p ~/.ssh; touch ~/.ssh/authorized_keys; chmod 700 ~/.ssh; chmod 600 ~/.ssh/authorized_keys";
        appends = refl;
      },
    )

-- Where the destination authorised the key, the last process of a transfer is the withdrawal.
run_transfer-last :
    (env : Env) (t : Transfer) (calls calls' : List Call)
    → authorise env t calls ≡ (ok tt, calls')
    → (before : List Call) × ((run_transfer env t calls).1
        ≡ script_on t.dst_alias (remove_script t.marker) 30 ∷ before)
unfolding run_transfer after_authorise closing clean_up ◌>>=◌ withdraw forget_key quietly
    run_remote_shell
run_transfer-last env t calls calls' h = rw h (_, run-log env _ _ _)

keys_file :
    codes " ~/.ssh/authorized_keys && rm -f ~/.ssh/authorized_keys.opu-bak"
    ≡ codes " ~/.ssh/authorized_keys" ++ codes " && rm -f ~/.ssh/authorized_keys.opu-bak"
unfolding codes
keys_file = refl

withdrawal-Withdraws :
    (ssh_alias line marker : Text)
    → all is_plain marker ≡ true
    → ends_with marker line ≡ true
    → Withdraws ssh_alias line marker (script_on ssh_alias (remove_script marker) 30)
unfolding remove_script
withdrawal-Withdraws ssh_alias line marker plain ends = record {
  program = codes "/" ++ marker ++ codes "$/d";
  after = codes " && rm -f ~/.ssh/authorized_keys.opu-bak";
  runs =
      ap
        (λ rest.
          script_on ssh_alias
            (codes "sed -i.opu-bak " ++ quote (codes "/" ++ marker ++ codes "$/d") ++ rest) 30)
        keys_file;
  deletes = sed_deletes-marker marker line plain ∙ ends;
  spares = λ other. sed_deletes-marker marker other plain;
}

plain-all : (t : Text) → all is_alnum t ≡ true → all is_plain t ≡ true
unfolding all is_plain
plain-all [] h = refl
plain-all (c ∷ cs) h =
    let (now, later) = &&-eq-true (is_alnum c) (all is_alnum cs) h in
    rw (now, plain-all cs later) refl

plain-marker :
    (hex : Text) → all is_alnum hex ≡ true → all is_plain (codes "opu-transfer-" ++ hex) ≡ true
unfolding codes all is_plain is_alnum
plain-marker hex h = plain-all hex h

module _ (env : Env) (pubkey private_key key marker_hex : Text) (src_alias : Text)
    (src_argv : List Text) (dst_alias : Text) (dst_argv : List Text) (dst_ip : Text)
    (src_ips : List Text) (timeout : ℕ) (src_sudo dst_sudo : Bool) where
  -- The transfer of a call, for the user that the destination named.
  abbrev pub the_transfer : Completed → Transfer
  the_transfer who =
      transfer_of pubkey private_key (codes "opu-transfer-" ++ marker_hex)
        (or_root (trim who.stdout)) src_alias (with_sudo src_sudo src_argv) dst_alias
        (with_sudo dst_sudo dst_argv) dst_ip src_ips timeout

  -- A direct transfer with addresses of the source and with a key whose comment is its marker, as
  -- ssh-keygen writes it, where the marker is letters and digits of a UUID and the destination named
  -- its user and accepted the key: one process appended a line to the keys that the destination
  -- accepts, and the last process of the transfer, whether it returns or raises and whatever the
  -- processes before it answered, has sed delete that line there, and no line but those that end in
  -- the marker.
  pub direct_transfer-Withdraws :
      (calls calls1 calls2 : List Call) (who : Completed)
      → is_nil src_ips ≡ false
      → trim pubkey ≡ key ++ (codes "opu-transfer-" ++ marker_hex)
      → all is_alnum marker_hex ≡ true
      → run_remote_shell env dst_alias (codes "id -un") 30 false calls ≡ (ok who, calls1)
      → authorise env (the_transfer who) calls1 ≡ (ok tt, calls2)
      → (line : Text) × (added deleted : Call) × (before : List Call) × (calls2 ≡ added ∷ calls1)
        × Authorises dst_alias line added
        × ((direct_transfer env
              (made pubkey private_key)
              marker_hex
              src_alias
              src_argv
              dst_alias
              dst_argv
              dst_ip
              src_ips
              timeout
              src_sudo
              dst_sudo
              calls).1
            ≡ deleted ∷ before)
        × Withdraws dst_alias line (codes "opu-transfer-" ++ marker_hex) deleted
  unfolding direct_transfer with_keys transfer_of refuse_if oracle_patching.Exec.ensure ◌>>=◌
  direct_transfer-Withdraws calls calls1 calls2 who some_ips comment hex asked accepted =
      let t = the_transfer who in
      let (added, added_last, authorises) = authorise-Authorises env t calls1 calls2 accepted in
      let (before, last) = run_transfer-last env t calls1 calls2 accepted in
      (
        t.line,
        added,
        _,
        before,
        added_last,
        authorises,
        rw (some_ips, asked) last,
        withdrawal-Withdraws dst_alias t.line _ (plain-marker marker_hex hex) (
            auth_line-ends src_ips (command (with_sudo dst_sudo dst_argv)) (trim pubkey) key _
              comment),
      )
