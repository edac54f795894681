-- ===== src/Json.antt =====
-- JSON values as `json.loads` gives them, and what the program asks of them: `dict.get`,
-- `isinstance` and truth.
use oracle_patching.Prelude.{
  ℕ, String, Bool, true, false, not, ◌&&◌, Option, none, some, List, [], ◌∷◌, ◌==◌, string_eq,
  nat_eq, if◌then◌else◌,
}

mutual
  -- `neg n` is the integer -(n + 1). Of a number that is read as a `float` the program asks no more
  -- than its sign (`true` below 0), its whole part and whether it has a fraction.
  pub data Json : Type 0 where
    null : Json
    bool : Bool → Json
    int : ℕ → Json
    neg : ℕ → Json
    real : Bool → ℕ → Bool → Json
    str : String → Json
    arr : Items → Json
    obj : Fields → Json

  pub data Items : Type 0 where
    nil : Items
    cons : Json → Items → Items

  pub data Fields : Type 0 where
    end : Fields
    field : String → Json → Fields → Fields

unfoldable pub find : String → Fields → Option Json
find k end = none
find k (field j v fs) = if j == k then some v else find k fs

-- `value.get(k)`, with `null` for `None`; the program calls it on a `dict` only.
unfoldable pub get : String → Json → Json
unfolding find
get k (obj fs) = elim (find k fs) [ none ↦ null | some v ↦ v ]
get k _ = null

-- `value.get(k, default)`
unfoldable pub get_or : String → Json → Json → Json
unfolding find
get_or k (obj fs) d = elim (find k fs) [ none ↦ d | some v ↦ v ]
get_or k _ d = d

-- `isinstance(value, dict)`
unfoldable pub is_dict : Json → Bool
is_dict (obj fs) = true
is_dict _ = false

-- `bool(value)`
unfoldable pub truthy : Json → Bool
truthy null = false
truthy (bool b) = b
truthy (int n) = if n == 0 then false else true
truthy (neg n) = true
truthy (real below whole fraction) = if whole == 0 then fraction else true
truthy (str s) = if s == "" then false else true
truthy (arr nil) = false
truthy (arr (cons v vs)) = true
truthy (obj end) = false
truthy (obj (field k v fs)) = true

-- `value == "text"`
unfoldable pub is_str : String → Json → Bool
is_str t (str s) = s == t
is_str t _ = false

-- `value == n`; a `bool` is an integer in Python.
unfoldable pub is_int : ℕ → Json → Bool
is_int n (int m) = m == n
is_int n (bool true) = n == 1
is_int n (bool false) = n == 0
is_int n (real true whole fraction) = n == 0 && (whole == 0 && not fraction)
is_int n (real false whole fraction) = whole == n && not fraction
is_int n _ = false

-- `type(value) is int`
unfoldable pub typed_int : Json → Bool
typed_int (int n) = true
typed_int (neg n) = true
typed_int _ = false

-- A `dict` display's field: a new value keeps the place of the old one.
unfoldable pub set_field : String → Json → Fields → Fields
set_field k v end = field k v end
set_field k v (field j w fs) = if j == k then field j v fs else field j w (set_field k v fs)

-- The fields of `value or {}`, for a value that is `None` or a `dict`.
unfoldable pub fields : Json → Fields
fields (obj fs) = fs
fields _ = end

-- The elements of a `list`.
unfoldable pub elements : Items → List Json
elements nil = []
elements (cons v vs) = v ∷ elements vs

-- `str(value or default)`; `show` is `str` on a value that is no text.
unfoldable pub text_or : (show : Json → String) → String → Json → String
unfolding truthy
text_or show default (str s) = if s == "" then default else s
text_or show default v = if truthy v then show v else default

abbrev pub object_fields : List (String × Json) → Fields
object_fields [] = end
object_fields ((k, v) ∷ entries) = field k v (object_fields entries)

abbrev pub items_of : List Json → Items
items_of [] = nil
items_of (v ∷ vs) = cons v (items_of vs)

-- A `dict` display.
abbrev pub object : List (String × Json) → Json
object entries = obj (object_fields entries)

-- A `list` of values.
abbrev pub array : List Json → Json
array vs = arr (items_of vs)
