-- ===== src/Remote/Quote.antt =====
-- `shlex.quote`, the commands that webapp/remote.py joins of quoted words, and how a POSIX shell
-- splits a command into words.
use mathlib.Core.List.{append_assoc, append-nil}
use oracle_patching.Prelude.{
  ℕ, ◌≡◌, refl, sym, ap, ◌∙◌, inl, inr, Bool, true, false, ◌||◌, Option, none, some, List, [], ◌∷◌,
  ◌++◌, map, arith, ◌==◌, nat_eq, if◌then◌else◌, all, Bool-cases, &&-eq-true,
}
use oracle_patching.Prelude.Text.{is_alnum}

-- A `str`, as its code points.
abbrev pub Text : Type 0
Text = List ℕ

-- [\w@%+=:,./-], the characters that `shlex.quote` leaves bare
unfoldable pub is_bare : ℕ → Bool
unfolding is_alnum
is_bare c =
    is_alnum c
    || c == b'_'
    || c == b'@'
    || c == b'%'
    || c == b'+'
    || c == b'='
    || c == b':'
    || c == b','
    || c == b'.'
    || c == b'/'
    || c == b'-'

-- `s.replace("'", "'\"'\"'")`
unfoldable pub escape : Text → Text
escape [] = []
escape (c ∷ cs) =
    let rest = escape cs in if c == 39 then 39 ∷ 34 ∷ 39 ∷ 34 ∷ 39 ∷ rest else c ∷ rest

-- `shlex.quote`
unfoldable pub quote : Text → Text
unfolding is_bare escape
quote [] = 39 ∷ 39 ∷ []
quote (c ∷ cs) = if all is_bare (c ∷ cs) then c ∷ cs else 39 ∷ (escape (c ∷ cs) ++ (39 ∷ []))

-- `" ".join(words)`
unfoldable pub join : List Text → Text
join [] = []
join (w ∷ []) = w
join (w ∷ v ∷ ws) = w ++ (32 ∷ join (v ∷ ws))

-- `" ".join(shlex.quote(a) for a in argv)`
unfoldable pub command : List Text → Text
unfolding quote join
command argv = join (map quote argv)

-- How a shell reads a character outside quotes. What it would expand, substitute or run is
-- `special`.
pub data Reading : Type 0 where
  blank single double literal special : Reading

unfoldable pub reading : ℕ → Reading
reading c =
    if c == 32
    then blank
    else if c == 39
    then single
    else if c == 34
    then double
    else if is_bare c
    then literal
    else special

-- Inside double quotes these are not literal.
unfoldable pub is_expanding : ℕ → Bool
is_expanding c = c == b'$' || c == b'`' || c == 92 || c == b'!'

pub data Mode : Type 0 where
  bare in_single in_double : Mode

abbrev pub so_far : Option Text → Text
so_far none = []
so_far (some w) = w

abbrev pub emit : Option Text → Option (List Text) → Option (List Text)
emit w none = none
emit none (some ws) = some ws
emit (some w) (some ws) = some (w ∷ ws)

-- The words of a command of which `word` is the part read of the current one; `none` where the
-- shell would do more than split, or a quote is left open.
unfoldable pub words_from : Mode → Option Text → Text → Option (List Text)
unfolding reading is_expanding
words_from bare word [] = emit word (some [])
words_from in_single word [] = none
words_from in_double word [] = none
words_from bare word (c ∷ cs) = elim (reading c) [
  | blank ↦ emit word (words_from bare none cs)
  | single ↦ words_from in_single (some (so_far word)) cs
  | double ↦ words_from in_double (some (so_far word)) cs
  | literal ↦ words_from bare (some (so_far word ++ (c ∷ []))) cs
  | special ↦ none
]
words_from in_single word (c ∷ cs) = elim (c == 39) [
  | true ↦ words_from bare word cs
  | false ↦ words_from in_single (some (so_far word ++ (c ∷ []))) cs
]
words_from in_double word (c ∷ cs) = elim (c == 34) [
  | true ↦ words_from bare word cs
  | false ↦ elim (is_expanding c) [
    | true ↦ none
    | false ↦ words_from in_double (some (so_far word ++ (c ∷ []))) cs
  ]
]

unfoldable pub shell_words : Text → Option (List Text)
unfolding words_from
shell_words = words_from bare none

reading-is_bare : (c : ℕ) → is_bare c ≡ true → reading c ≡ literal
unfolding reading is_bare is_alnum
reading-is_bare c h = ground arith

snoc_assoc : (w cs : Text) (c : ℕ) → (w ++ (c ∷ [])) ++ cs ≡ w ++ (c ∷ cs)
snoc_assoc w cs c = append_assoc w (c ∷ []) cs

-- Bare characters join the word.
words-bare :
    (w s rest : Text)
    → all is_bare s ≡ true
    → words_from bare (some w) (s ++ rest) ≡ words_from bare (some (w ++ s)) rest
unfolding words_from all
words-bare w [] rest h = ap (λ v. words_from bare (some v) rest) (sym (append-nil w))
words-bare w (c ∷ cs) rest h =
    let (now, later) = &&-eq-true _ _ h in
    rw (reading-is_bare c now, words_from)
      (words-bare (w ++ (c ∷ [])) cs rest later
        ∙ ap (λ v. words_from bare (some v) rest) (snoc_assoc w cs c))

-- An escaped text between single quotes joins the word as it was.
words-escape :
    (w s rest : Text)
    → words_from in_single (some w) (escape s ++ (39 ∷ rest)) ≡ words_from bare (some (w ++ s)) rest
unfolding words_from escape
words-escape w [] rest = ap (λ v. words_from bare (some v) rest) (sym (append-nil w))
words-escape w (c ∷ cs) rest = elim (Bool-cases (c == 39)) [
  | inl q ↦
      let e : c ≡ 39 = ground arith in
      rw q (
        words-escape (w ++ (39 ∷ [])) cs rest
        ∙ ap (λ v. words_from bare (some v) rest) (snoc_assoc w cs 39)
        ∙ ap (λ d. words_from bare (some (w ++ (d ∷ cs))) rest) (sym e))
  | inr n ↦
      rw (n, n, words_from)
        (words-escape (w ++ (c ∷ [])) cs rest
          ∙ ap (λ v. words_from bare (some v) rest) (snoc_assoc w cs c))
]

-- A quoted text is read as one word, whatever its characters are.
words-quote :
    (s rest : Text) → words_from bare none (quote s ++ rest) ≡ words_from bare (some s) rest
unfolding quote words_from all
words-quote [] rest = refl
words-quote (c ∷ cs) rest = elim (Bool-cases (all is_bare (c ∷ cs))) [
  | inl h ↦
      let (now, later) = &&-eq-true _ _ h in
      rw h (rw (reading-is_bare c now, words_from) (words-bare (c ∷ []) cs rest later))
  | inr h ↦ rw h (
      ap (words_from in_single (some [])) (append_assoc (escape (c ∷ cs)) (39 ∷ []) rest)
      ∙ words-escape [] (c ∷ cs) rest)
]

-- A shell splits the command that is joined of quoted words into exactly those words, whatever
-- characters they hold: none of them is expanded, split or run.
pub command-shell_words : (argv : List Text) → shell_words (command argv) ≡ some argv
unfolding shell_words command
command-shell_words [] = refl
command-shell_words (w ∷ []) =
    ap (words_from bare none) (sym (append-nil (quote w))) ∙ words-quote w []
command-shell_words (w ∷ v ∷ ws) =
    words-quote w (32 ∷ command (v ∷ ws)) ∙ ap (emit (some w)) (command-shell_words (v ∷ ws))
