-- ===== src/Prelude/Text.antt =====
-- Text as a list of code points, with the operations of Go's `strings` that the program uses.
use Prim.Native.Char.{code}
use Prim.Native.Nat.{ℕ}
use Prim.Native.String.{String}
use mathlib.Core.Path.{◌≡◌, refl}
use mathlib.Core.Logic.{◌↔◌, inl, inr}
use mathlib.Core.Bool.{Bool, true, false, ◌&&◌, ◌||◌}
use mathlib.Core.List.{List, [], ◌∷◌, ◌++◌}
use native.Mathlib.Omega.{arith}
use go_performance_starter.Prelude.Tests.{leb, ◌==◌, if◌then◌else◌, Bool-cases}

abbrev pub Text : Type 0
Text = List ℕ

abbrev pub codes : String → Text
codes String.[] = []
codes (String.◌∷◌ c s) = code c ∷ codes s

unfoldable pub text_eq : Text → Text → Bool
text_eq [] [] = true
text_eq (a ∷ s) (b ∷ t) = a == b && text_eq s t
text_eq _ _ = false

pub text_eq_iff : (s t : Text) → (text_eq s t ≡ true) ↔ (s ≡ t)
unfolding text_eq
text_eq_iff [] [] = (λ _. refl, λ _. refl)
text_eq_iff [] (b ∷ t) = (λ e. cc, λ e. cc)
text_eq_iff (a ∷ s) [] = (λ e. cc, λ e. cc)
text_eq_iff (a ∷ s) (b ∷ t) =
    (λ e. ground (arith, (text_eq_iff s t).0), λ e. ground (arith, (text_eq_iff s t).1))

pub text_eq_refl : (s : Text) → text_eq s s ≡ true
text_eq_refl s = (text_eq_iff s s).1 refl

unfoldable pub has_prefix : Text → Text → Bool
has_prefix s [] = true
has_prefix [] (b ∷ p) = false
has_prefix (a ∷ s) (b ∷ p) = a == b && has_prefix s p

-- unicode.IsSpace
unfoldable pub is_space : ℕ → Bool
is_space c =
    leb 9 c && leb c 13
    || c == 32
    || c == 0x85
    || c == 0xa0
    || c == 0x1680
    || leb 0x2000 c && leb c 0x200a
    || c == 0x2028
    || c == 0x2029
    || c == 0x202f
    || c == 0x205f
    || c == 0x3000

-- strings.TrimLeft with a set of characters
abbrev pub trim_left_by : (ℕ → Bool) → Text → Text
trim_left_by p [] = []
trim_left_by p (c ∷ s) = elim (p c) [ true ↦ trim_left_by p s | false ↦ c ∷ s ]

abbrev drop_end : (ℕ → Bool) → ℕ → Text → Text
drop_end p c [] = elim (p c) [ true ↦ [] | false ↦ c ∷ [] ]
drop_end p c (d ∷ s) = c ∷ d ∷ s

-- strings.TrimRight with a set of characters
abbrev pub trim_right_by : (ℕ → Bool) → Text → Text
trim_right_by p [] = []
trim_right_by p (c ∷ s) = drop_end p c (trim_right_by p s)

-- strings.TrimSpace
unfoldable pub trim_space : Text → Text
unfolding is_space
trim_space s = trim_right_by is_space (trim_left_by is_space s)

abbrev cons_head : ℕ → List Text → List Text
cons_head c [] = (c ∷ []) ∷ []
cons_head c (s ∷ ss) = (c ∷ s) ∷ ss

-- strings.Split at one character
unfoldable pub split_on : ℕ → Text → List Text
split_on sep [] = [] ∷ []
split_on sep (c ∷ s) =
    let parts = split_on sep s in if c == sep then [] ∷ parts else cons_head c parts

-- A split has at least one part.
split_on-cons : (sep : ℕ) (s : Text) → (p : Text) × (ps : List Text) × (split_on sep s ≡ p ∷ ps)
unfolding split_on
split_on-cons sep [] = ([], [], refl)
split_on-cons sep (c ∷ s) =
    let (p, ps, e) = split_on-cons sep s in
    elim (Bool-cases (c == sep)) [
      | inl cut ↦ ([], p ∷ ps, rw (cut, e))
      | inr other ↦ (c ∷ p, ps, rw (other, e))
    ]

cons_head-append :
    (c : ℕ) (s : Text) (ss ts : List Text)
    → cons_head c ((s ∷ ss) ++ ts) ≡ cons_head c (s ∷ ss) ++ ts
cons_head-append c s ss ts = refl

-- Splitting a text that holds the separator splits both sides of it.
pub split_on-append :
    (sep : ℕ) (s t : Text) → split_on sep (s ++ sep ∷ t) ≡ split_on sep s ++ split_on sep t
unfolding split_on
split_on-append sep [] t = ground arith
split_on-append sep (c ∷ s) t =
    let (p, ps, e) = split_on-cons sep s in
    elim (Bool-cases (c == sep)) [
      | inl cut ↦ rw (cut, split_on-append sep s t)
      | inr other ↦ rw (other, split_on-append sep s t, e)
    ]
