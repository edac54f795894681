-- ===== src/Prelude/Text.antt =====
-- What Python's `str` methods and the identifier patterns of the program compute.
pub mod Strip
pub mod Decimal
use Prim.Native.Char.{Char, code}
use Prim.Native.Nat.{ℕ, zero, suc, ◌+◌, ◌-◌, ◌*◌}
use Prim.Native.String.{String}
use mathlib.Core.Path.{◌≡◌, refl}
use mathlib.Core.Bool.{Bool, true, false, ◌&&◌, ◌||◌}
use native.Mathlib.Omega.{arith}
use mathlib.Core.List.{List, [], ◌∷◌, ◌++◌, map, reverse}
use mathlib.Core.Option.{Option, none, some}
use oracle_patching.Prelude.Tests.{ltb, leb, ◌==◌, nat_eq, if◌then◌else◌}

-- The code points of a text.
unfoldable pub codes : String → List ℕ
codes String.[] = []
codes (String.◌∷◌ c s) = code c ∷ codes s

-- `str < str`: lexicographic on code points.
unfoldable pub codes_ltb : List ℕ → List ℕ → Bool
codes_ltb xs [] = false
codes_ltb [] (y ∷ ys) = true
codes_ltb (x ∷ xs) (y ∷ ys) = ltb x y || (x == y && codes_ltb xs ys)

unfoldable pub str_ltb : String → String → Bool
unfolding codes codes_ltb
str_ltb s t = codes_ltb (codes s) (codes t)

codes_ltb_irrefl : (xs : List ℕ) → codes_ltb xs xs ≡ false
unfolding codes_ltb
codes_ltb_irrefl [] = refl
codes_ltb_irrefl (x ∷ xs) = ground (arith, codes_ltb_irrefl xs)

pub str_ltb_irrefl : (s : String) → str_ltb s s ≡ false
unfolding str_ltb
str_ltb_irrefl s = codes_ltb_irrefl (codes s)

-- The characters that `str.strip` removes.
unfoldable pub is_space : ℕ → Bool
is_space c =
    (leb 9 c && leb c 13)
    || (leb 28 c && leb c 32)
    || c == 133
    || c == 160
    || c == 5760
    || (leb 8192 c && leb c 8202)
    || c == 8232
    || c == 8233
    || c == 8239
    || c == 8287
    || c == 12288

unfoldable pub drop_spaces : String → String
unfolding is_space
drop_spaces String.[] = String.[]
drop_spaces (String.◌∷◌ c s) = if is_space (code c) then drop_spaces s else String.◌∷◌ c s

unfoldable pub reverse_onto : String → String → String
reverse_onto t String.[] = t
reverse_onto t (String.◌∷◌ c s) = reverse_onto (String.◌∷◌ c t) s

-- `str.strip`
unfoldable pub strip : String → String
unfolding drop_spaces reverse_onto
strip s = reverse_onto "" (drop_spaces (reverse_onto "" (drop_spaces s)))

-- `str.lower`, on ASCII: every text that the program compares a lowered one with is ASCII, and no
-- other character lowers to one of their letters.
unfoldable pub lower : List ℕ → List ℕ
lower = map (λ c. if leb b'A' c && leb c b'Z' then c + 32 else c)

unfoldable pub codes_eq : List ℕ → List ℕ → Bool
codes_eq [] [] = true
codes_eq (x ∷ xs) (y ∷ ys) = x == y && codes_eq xs ys
codes_eq _ _ = false

-- [A-Za-z0-9]
unfoldable pub is_alnum : ℕ → Bool
is_alnum c = (leb b'A' c && leb c b'Z') || (leb b'a' c && leb c b'z') || (leb b'0' c && leb c b'9')

-- [A-Za-z0-9._:-]
unfoldable pub is_id_char : ℕ → Bool
unfolding is_alnum
is_id_char c = is_alnum c || c == b'.' || c == b'_' || c == b':' || c == b'-'

-- [A-Za-z0-9._:-]{0,n}
unfoldable pub id_tail : ℕ → List ℕ → Bool
unfolding is_id_char
id_tail n [] = true
id_tail zero (c ∷ cs) = false
id_tail (suc n) (c ∷ cs) = is_id_char c && id_tail n cs

-- `re.fullmatch(r"[A-Za-z0-9][A-Za-z0-9._:-]{0,n}", …)`
unfoldable pub id_fullmatch : ℕ → List ℕ → Bool
unfolding is_alnum id_tail
id_fullmatch n [] = false
id_fullmatch n (c ∷ cs) = is_alnum c && id_tail n cs

-- `".." in …`
unfoldable pub has_dotdot : List ℕ → Bool
has_dotdot [] = false
has_dotdot (c ∷ []) = false
has_dotdot (c ∷ d ∷ cs) = (c == b'.' && d == b'.') || has_dotdot (d ∷ cs)

-- `text.strip().lower() in {"1", "true", "yes", "on"}`, as the switches of the environment are read.
unfoldable pub is_on : String → Bool
unfolding codes lower strip codes_eq
is_on text =
    let word = lower (codes (strip text)) in
    codes_eq word (codes "1")
    || codes_eq word (codes "true")
    || codes_eq word (codes "yes")
    || codes_eq word (codes "on")

-- `text.strip().lower() in {"0", "false", "no", "off"}`
unfoldable pub is_off : String → Bool
unfolding codes lower strip codes_eq
is_off text =
    let word = lower (codes (strip text)) in
    codes_eq word (codes "0")
    || codes_eq word (codes "false")
    || codes_eq word (codes "no")
    || codes_eq word (codes "off")

-- [a-f0-9]{n}
unfoldable pub is_hex : ℕ → List ℕ → Bool
is_hex zero [] = true
is_hex zero (c ∷ cs) = false
is_hex (suc n) [] = false
is_hex (suc n) (c ∷ cs) = ((leb b'a' c && leb c b'f') || (leb b'0' c && leb c b'9')) && is_hex n cs

-- What stands before a final "\n", before which `$` matches too.
unfoldable pub chomp : List ℕ → List ℕ
chomp [] = []
chomp (c ∷ []) = if c == 10 then [] else c ∷ []
chomp (c ∷ d ∷ cs) = c ∷ chomp (d ∷ cs)

-- `re.compile(r"^[A-Za-z0-9][A-Za-z0-9._:-]{0,n}$").match(…)`
unfoldable pub id_match : ℕ → List ℕ → Bool
unfolding id_fullmatch chomp
id_match n cs = id_fullmatch n (chomp cs)

-- The rest of a text after a prefix, where it starts with that.
unfoldable pub after_prefix : List ℕ → List ℕ → List ℕ
after_prefix [] cs = cs
after_prefix (p ∷ ps) [] = []
after_prefix (p ∷ ps) (c ∷ cs) = after_prefix ps cs

unfoldable pub starts_with : List ℕ → List ℕ → Bool
starts_with [] cs = true
starts_with (p ∷ ps) [] = false
starts_with (p ∷ ps) (c ∷ cs) = p == c && starts_with ps cs

-- `text.rstrip("/")`
unfoldable pub strip_slashes : List ℕ → List ℕ
strip_slashes [] = []
strip_slashes (c ∷ cs) =
    let rest = strip_slashes cs in
    elim rest [ [] ↦ if c == b'/' then [] else c ∷ [] | d ∷ ds ↦ c ∷ d ∷ ds ]

-- Decimal digits, as a number.
unfoldable pub digits : ℕ → List ℕ → Option ℕ
digits n [] = some n
digits n (c ∷ cs) =
    let rest = digits (10 * n + (c - b'0')) cs in if leb b'0' c && leb c b'9' then rest else none

-- `str.lstrip` and `str.strip`, on code points.
unfoldable pub trim_start : List ℕ → List ℕ
unfolding is_space
trim_start [] = []
trim_start (c ∷ cs) = if is_space c then trim_start cs else c ∷ cs

unfoldable pub trim : List ℕ → List ℕ
unfolding trim_start
trim cs = reverse (trim_start (reverse (trim_start cs)))

-- `len(text) == 0`
unfoldable pub is_blank : List ℕ → Bool
is_blank [] = true
is_blank (c ∷ cs) = false

-- The pieces of a text between the characters of a set, the empty ones too.
unfoldable pub pieces : (ℕ → Bool) → List ℕ → List ℕ → List (List ℕ)
pieces breaks piece [] = piece ∷ []
pieces breaks piece (c ∷ cs) = elim (breaks c) [
  | true ↦ piece ∷ pieces breaks [] cs
  | false ↦ pieces breaks (piece ++ (c ∷ [])) cs
]

unfoldable pub is_digit : ℕ → Bool
is_digit c = leb b'0' c && leb c b'9'
