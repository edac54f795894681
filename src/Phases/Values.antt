-- ===== src/Phases/Values.antt =====
-- How the phases read a snapshot: `x or {}`, `x or []`, `(x or "").strip()`, `str(x or "").lower()`
-- and `", ".join`. A value of another shape makes Python raise, which is a `Fault`.
use oracle_patching.Prelude.{String, ◌<>◌, Bool, List, [], ◌∷◌, if◌then◌else◌}
use oracle_patching.Prelude.Text.{codes, strip, lower, codes_eq}
use oracle_patching.Exec.{Result, ok, err, and_then}
use oracle_patching.Json.{Json, Fields, truthy, is_dict, elements, text_or}

-- `AttributeError` or `TypeError`
pub data Fault : Type 0 where
  fault : Fault

module _ {A B : Type 0} where
  infixl 10 ◌>>=◌
  abbrev pub ◌>>=◌ : Result Fault A → (A → Result Fault B) → Result Fault B
  r >>= f = and_then r f

-- `value or {}`, on which `get` is called.
unfoldable pub dict_or_empty : Json → Result Fault Json
unfolding truthy is_dict
dict_or_empty v =
    if truthy v then (if is_dict v then ok v else err fault) else ok (Json.obj Fields.end)

-- `value or []`, over which a loop runs.
unfoldable pub list_or_empty : Json → Result Fault (List Json)
unfolding truthy elements
list_or_empty (Json.arr xs) = ok (elements xs)
list_or_empty v = if truthy v then err fault else ok []

-- `(value or "").strip()`
unfoldable pub stripped : Json → Result Fault String
unfolding truthy strip
stripped (Json.str s) = ok (strip s)
stripped v = if truthy v then err fault else ok ""

-- A value on which `get` is called.
unfoldable pub dict_or_fault : Json → Result Fault Json
unfolding is_dict
dict_or_fault v = if is_dict v then ok v else err fault

-- `str(value or "").lower() == word`, for a word in small letters.
unfoldable pub says : (show : Json → String) → String → Json → Bool
unfolding codes_eq lower codes text_or
says show word v = codes_eq (lower (codes (text_or show "" v))) (codes word)

-- The elements, where a value is a list with some.
unfoldable pub some_list : Json → List Json
unfolding elements
some_list (Json.arr xs) = elements xs
some_list v = []

-- `f"{value}"`
unfoldable pub text : (show : Json → String) → Json → String
text show (Json.str s) = s
text show v = show v

-- `f"{value or default}"`
unfoldable pub text_else : (show : Json → String) → String → Json → String
unfolding truthy text
text_else show default v = if truthy v then text show v else default

-- `sep.join(texts)`
unfoldable pub joined : String → List String → String
joined sep [] = ""
joined sep (s ∷ []) = s
joined sep (s ∷ t ∷ ss) = s <> sep <> joined sep (t ∷ ss)

-- The texts of a join over values, which refuses another type.
unfoldable pub as_texts : List Json → Result Fault (List String)
as_texts [] = ok []
as_texts (Json.str s ∷ vs) = and_then (as_texts vs) λ ss. ok (s ∷ ss)
as_texts (v ∷ vs) = err fault
