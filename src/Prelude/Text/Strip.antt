-- ===== src/Prelude/Text/Strip.antt =====
-- An identifier has no space at its ends, so `str.strip` leaves it as it is.
use Prim.Native.Char.{code}
use Prim.Native.Nat.{ℕ, zero, suc}
use Prim.Native.String.{String, ◌++◌ as ◌<>◌}
use mathlib.Core.Path.{◌≡◌, refl, sym, ap, ◌∙◌}
use mathlib.Core.Bool.{true, false}
use native.Mathlib.Omega.{arith}
use text.Mathlib.TextLemmas.{nil-append, cons-append, append-nil}
use oracle_patching.Prelude.Tests.{&&-eq-true}
use oracle_patching.Prelude.Text.{
  codes, is_space, drop_spaces, reverse_onto, strip, is_alnum, is_id_char, id_tail, id_fullmatch,
}

is_id_char-is_space : (c : ℕ) → is_id_char c ≡ true → is_space c ≡ false
unfolding is_id_char is_space
is_id_char-is_space c h = ground arith

is_alnum-is_id_char : (c : ℕ) → is_alnum c ≡ true → is_id_char c ≡ true
unfolding is_id_char
is_alnum-is_id_char c h = ground arith

abbrev NoSpace : String → Type 0
NoSpace String.[] = Unit
NoSpace (String.◌∷◌ c s) = (is_space (code c) ≡ false) × NoSpace s

reverse_onto_twice : (t u s : String) → reverse_onto t (reverse_onto u s) ≡ reverse_onto (s <> t) u
unfolding reverse_onto
reverse_onto_twice t u String.[] = ap (λ x. reverse_onto x u) (sym (nil-append t))
reverse_onto_twice t u (String.◌∷◌ c s) =
    reverse_onto_twice t (String.◌∷◌ c u) s ∙ ap (λ x. reverse_onto x u) (sym (cons-append c s t))

reverse_reverse : (s : String) → reverse_onto "" (reverse_onto "" s) ≡ s
unfolding reverse_onto
reverse_reverse s = reverse_onto_twice "" "" s ∙ append-nil s

drop_spaces_id : (s : String) → NoSpace s → drop_spaces s ≡ s
unfolding drop_spaces
drop_spaces_id String.[] h = refl
drop_spaces_id (String.◌∷◌ c s) h = rw h.0

reverse_onto-NoSpace : (t s : String) → NoSpace t → NoSpace s → NoSpace (reverse_onto t s)
unfolding reverse_onto
reverse_onto-NoSpace t String.[] ht hs = ht
reverse_onto-NoSpace t (String.◌∷◌ c s) ht hs =
    reverse_onto-NoSpace (String.◌∷◌ c t) s (hs.0, ht) hs.1

strip_of_NoSpace : (s : String) → NoSpace s → strip s ≡ s
unfolding strip
strip_of_NoSpace s h =
    rw (drop_spaces_id s h)
      (rw (drop_spaces_id (reverse_onto "" s) (reverse_onto-NoSpace "" s tt h)) (reverse_reverse s))

id_tail-NoSpace : (n : ℕ) (s : String) → id_tail n (codes s) ≡ true → NoSpace s
unfolding id_tail codes
id_tail-NoSpace n String.[] h = tt
id_tail-NoSpace zero (String.◌∷◌ c s) h = absurd (cc)
id_tail-NoSpace (suc n) (String.◌∷◌ c s) h =
    let (now, later) = &&-eq-true _ _ h in
    (is_id_char-is_space (code c) now, id_tail-NoSpace n s later)

id_fullmatch-NoSpace : (n : ℕ) (s : String) → id_fullmatch n (codes s) ≡ true → NoSpace s
unfolding id_fullmatch codes
id_fullmatch-NoSpace n String.[] h = tt
id_fullmatch-NoSpace n (String.◌∷◌ c s) h =
    let (now, later) = &&-eq-true _ _ h in
    (is_id_char-is_space (code c) (is_alnum-is_id_char (code c) now), id_tail-NoSpace n s later)

pub strip_of_id_fullmatch : (n : ℕ) (s : String) → id_fullmatch n (codes s) ≡ true → strip s ≡ s
strip_of_id_fullmatch n s h = strip_of_NoSpace s (id_fullmatch-NoSpace n s h)
