-- ===== src/Prelude/Pattern.antt =====
-- Go's package `regexp` as the program uses it: repetitions are of one class of characters. A pattern
-- gives every rest of the text that it may leave, so that a match exists where one rest does.
use Prim.Native.Nat.{ℕ, zero, suc, ◌+◌}
use mathlib.Core.Bool.{Bool, true, false, ◌&&◌, ◌||◌, not}
use mathlib.Core.Option.{Option, none, some}
use mathlib.Core.List.{List, [], ◌∷◌, ◌++◌}
use go_performance_starter.Prelude.Tests.{◌==◌, leb, if◌then◌else◌}
use go_performance_starter.Prelude.Text.{Text}

pub data Pattern : Type 0 where
  empty : Pattern
  -- one character of a class
  one : (ℕ → Bool) → Pattern
  -- a class, repeated: `*`
  many : (ℕ → Bool) → Pattern
  -- a class, repeated exactly so often: `{n}`
  times : ℕ → (ℕ → Bool) → Pattern
  -- a text, in any case: under `(?i)`
  folded : Text → Pattern
  -- a text
  exactly : Text → Pattern
  both : Pattern → Pattern → Pattern
  either : Pattern → Pattern → Pattern
  -- `\b`
  edge : Pattern

-- `\w`
abbrev pub is_word : ℕ → Bool
is_word c = leb 48 c && leb c 57 || leb 65 c && leb c 90 || leb 97 c && leb c 122 || c == b'_'

-- `\s`
abbrev pub is_blank : ℕ → Bool
is_blank c = c == 9 || c == 10 || c == 12 || c == 13 || c == 32

-- `\d`
abbrev pub is_digit : ℕ → Bool
is_digit c = leb 48 c && leb c 57

-- `.`
abbrev pub is_inline : ℕ → Bool
is_inline c = not (c == 10)

-- The letter that (?i) compares with: ASCII, the long s and the sign of Kelvin.
abbrev fold_case : ℕ → ℕ
fold_case c =
    if leb 65 c && leb c 90
    then c + 32
    else if c == 0x17f
    then 115
    else if c == 0x212a
    then 107
    else c

-- What is left: the character before (0 at the start of the text), and the rest.
abbrev pub Place : Type 0
Place = ℕ × Text

abbrev many_from : (ℕ → Bool) → ℕ → Text → List Place
many_from p before [] = (before, []) ∷ []
many_from p before (c ∷ s) = elim (p c) [
  | true ↦ (before, c ∷ s) ∷ many_from p c s
  | false ↦ (before, c ∷ s) ∷ []
]

abbrev times_from : ℕ → (ℕ → Bool) → ℕ → Text → List Place
times_from zero p before s = (before, s) ∷ []
times_from (suc n) p before [] = []
times_from (suc n) p before (c ∷ s) = elim (p c) [ true ↦ times_from n p c s | false ↦ [] ]

abbrev literal_from : (ℕ → ℕ) → Text → ℕ → Text → List Place
literal_from f [] before s = (before, s) ∷ []
literal_from f (a ∷ t) before [] = []
literal_from f (a ∷ t) before (c ∷ s) = elim (f c == a) [ true ↦ literal_from f t c s | false ↦ [] ]

abbrev word_after : Text → Bool
word_after [] = false
word_after (c ∷ s) = is_word c

abbrev on_edge : ℕ → Text → Bool
on_edge before s = if is_word before then not (word_after s) else word_after s

abbrev from_all : (ℕ → Text → List Place) → List Place → List Place
from_all next [] = []
from_all next ((before, s) ∷ places) = next before s ++ from_all next places

unfoldable pub rests : Pattern → ℕ → Text → List Place
rests empty before s = (before, s) ∷ []
rests (one p) before s = times_from 1 p before s
rests (many p) before s = many_from p before s
rests (times n p) before s = times_from n p before s
rests (folded t) before s = literal_from fold_case t before s
rests (exactly t) before s = literal_from (λ c. c) t before s
rests (both a b) before s = from_all (rests b) (rests a before s)
rests (either a b) before s = rests a before s ++ rests b before s
rests edge before s = if on_edge before s then (before, s) ∷ [] else []

abbrev pub some_place : List Place → Bool
some_place [] = false
some_place (x ∷ xs) = true

abbrev one_on : Option ℕ → Option ℕ
one_on none = none
one_on (some n) = some (suc n)

unfoldable find_from : Pattern → ℕ → Text → Option ℕ
unfolding rests
find_from p before [] = if some_place (rests p before []) then some 0 else none
find_from p before (c ∷ s) = elim (some_place (rests p before (c ∷ s))) [
  | true ↦ some 0
  | false ↦ one_on (find_from p c s)
]

-- Regexp.FindIndex: where the leftmost match starts
unfoldable pub find : Pattern → Text → Option ℕ
unfolding find_from
find p s = find_from p 0 s

abbrev is_some : Option ℕ → Bool
is_some none = false
is_some (some n) = true

-- Regexp.MatchString
unfoldable pub matches : Pattern → Text → Bool
unfolding find
matches p s = is_some (find p s)

-- A sequence of patterns.
abbrev pub in_turn : List Pattern → Pattern
in_turn [] = empty
in_turn (p ∷ ps) = both p (in_turn ps)

-- One of several.
abbrev pub one_of : Pattern → List Pattern → Pattern
one_of p [] = p
one_of p (q ∷ qs) = either p (one_of q qs)

-- `+`
abbrev pub some_of : (ℕ → Bool) → Pattern
some_of p = both (one p) (many p)

-- `?`
abbrev pub maybe : Pattern → Pattern
maybe p = either p empty

abbrev pub not_one_of : Text → ℕ → Bool
not_one_of [] c = true
not_one_of (a ∷ t) c = not (c == a) && not_one_of t c
