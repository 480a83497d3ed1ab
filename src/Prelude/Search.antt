-- ===== src/Prelude/Search.antt =====
-- Searching texts, as Go's packages `strings` and `bytes` do.
use Prim.Native.Nat.{ℕ, suc, ◌-◌}
use mathlib.Core.Path.{◌≡◌, refl}
use mathlib.Core.Bool.{Bool, false, ◌||◌}
use mathlib.Core.Option.{Option, none, some}
use mathlib.Core.List.{List, [], ◌∷◌, ◌++◌}
use go_performance_starter.Prelude.Tests.{◌==◌, if◌then◌else◌}
use go_performance_starter.Prelude.Lists.{length, take, drop, All}
use go_performance_starter.Prelude.Text.{Text, text_eq, has_prefix, split_on, split_on-append}

-- strings.Contains
unfoldable pub contains : Text → Text → Bool
unfolding has_prefix
contains [] sub = has_prefix [] sub
contains (c ∷ s) sub = has_prefix (c ∷ s) sub || contains s sub

-- strings.HasSuffix
unfoldable pub has_suffix : Text → Text → Bool
unfolding text_eq
has_suffix [] suffix = text_eq [] suffix
has_suffix (c ∷ s) suffix = text_eq (c ∷ s) suffix || has_suffix s suffix

-- strings.TrimPrefix
unfoldable pub trim_prefix : Text → Text → Text
unfolding has_prefix
trim_prefix s prefix = if has_prefix s prefix then drop (length prefix) s else s

-- strings.TrimSuffix
unfoldable pub trim_suffix : Text → Text → Text
unfolding has_suffix
trim_suffix s suffix = if has_suffix s suffix then take (length s - length suffix) s else s

abbrev one_later : Option ℕ → Option ℕ
one_later none = none
one_later (some n) = some (suc n)

-- strings.Index; `none` is the -1 of the code.
unfoldable pub index : Text → Text → Option ℕ
unfolding has_prefix
index [] sub = if has_prefix [] sub then some 0 else none
index (c ∷ s) sub =
    let later = one_later (index s sub) in if has_prefix (c ∷ s) sub then some 0 else later

abbrev pub IsWithout : ℕ → Text → Type 0
IsWithout c = All (λ a. (a == c) ≡ false)

split_on-IsWithout : (sep : ℕ) (s : Text) → IsWithout sep s → split_on sep s ≡ s ∷ []
unfolding split_on
split_on-IsWithout sep [] h = refl
split_on-IsWithout sep (c ∷ s) (apart, h) = rw (apart, split_on-IsWithout sep s h)

-- Every line with a newline behind it.
abbrev pub unlines : List Text → Text
unlines [] = []
unlines (l ∷ ls) = l ++ b'\n' ∷ unlines ls

pub split_on-unlines :
    (ls : List Text) → All (IsWithout b'\n') ls → split_on b'\n' (unlines ls) ≡ ls ++ [] ∷ []
unfolding split_on
split_on-unlines [] h = refl
split_on-unlines (l ∷ ls) (now, h) =
    rw (split_on-append b'\n' l (unlines ls), split_on-IsWithout b'\n' l now, split_on-unlines ls h)
