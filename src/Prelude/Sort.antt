-- ===== src/Prelude/Sort.antt =====
-- Sorting numbers, the result of Go's `slices.Sort` on integers, and counting in a list.
use Prim.Native.Nat.{ℕ, zero, suc, ◌+◌, ◌≤◌, ◌<◌}
use mathlib.Core.Path.{◌≡◌, refl, sym, ap, ◌∙◌}
use mathlib.Core.Bool.{Bool}
use mathlib.Core.Logic.{inl, inr}
use mathlib.Core.List.{List, [], ◌∷◌, ◌++◌, append-nil}
use native.Mathlib.Omega.{arith}
use go_performance_starter.Prelude.Tests.{ltb, leb, ◌==◌, if◌then◌else◌, Bool-cases, leb→le}
use go_performance_starter.Prelude.Lists.{length, get_or, All}

insert : ℕ → List ℕ → List ℕ
insert a [] = a ∷ []
insert a (x ∷ xs) = if leb a x then a ∷ x ∷ xs else x ∷ insert a xs

unfoldable pub sort : List ℕ → List ℕ
unfolding insert
sort [] = []
sort (x ∷ xs) = insert x (sort xs)

-- How many elements pass the test.
abbrev pub count : (ℕ → Bool) → List ℕ → ℕ
count p [] = 0
count p (x ∷ xs) = (if p x then 1 else 0) + count p xs

abbrev pub IsSorted : List ℕ → Type 0
IsSorted [] = Unit
IsSorted (x ∷ xs) = All (λ y. x ≤ y) xs × IsSorted xs

All-insert : (P : ℕ → Type 0) (a : ℕ) (xs : List ℕ) → P a → All P xs → All P (insert a xs)
unfolding insert
All-insert P a [] h k = (h, tt)
All-insert P a (x ∷ xs) h k = ground (arith, All-insert P a xs h k.1)

All-le_trans : (a b : ℕ) (xs : List ℕ) → a ≤ b → All (λ y. b ≤ y) xs → All (λ y. a ≤ y) xs
All-le_trans a b [] h k = tt
All-le_trans a b (x ∷ xs) h k = (omega arith, All-le_trans a b xs h k.1)

insert-IsSorted : (a : ℕ) (xs : List ℕ) → IsSorted xs → IsSorted (insert a xs)
unfolding insert
insert-IsSorted a [] h = (tt, tt)
insert-IsSorted a (x ∷ xs) h = elim (Bool-cases (leb a x)) [
  | inl le ↦ rw le ((leb→le a x le, All-le_trans a x xs (leb→le a x le) h.0), h)
  | inr gt ↦ rw gt (All-insert (λ y. x ≤ y) a xs (ground arith) h.0, insert-IsSorted a xs h.1)
]

pub sort-IsSorted : (xs : List ℕ) → IsSorted (sort xs)
unfolding sort
sort-IsSorted [] = tt
sort-IsSorted (x ∷ xs) = insert-IsSorted x (sort xs) (sort-IsSorted xs)

count-insert : (p : ℕ → Bool) (a : ℕ) (xs : List ℕ) → count p (insert a xs) ≡ count p (a ∷ xs)
unfolding insert
count-insert p a [] = refl
count-insert p a (x ∷ xs) = ground (arith, count-insert p a xs)

pub count-sort : (p : ℕ → Bool) (xs : List ℕ) → count p (sort xs) ≡ count p xs
unfolding sort
count-sort p [] = refl
count-sort p (x ∷ xs) =
    count-insert p x (sort xs) ∙ ap (λ (n : ℕ). (if p x then 1 else 0) + n) (count-sort p xs)

length-insert : (a : ℕ) (xs : List ℕ) → length (insert a xs) ≡ suc (length xs)
unfolding insert
length-insert a [] = refl
length-insert a (x ∷ xs) = ground (arith, length-insert a xs)

pub length-sort : (xs : List ℕ) → length (sort xs) ≡ length xs
unfolding sort
length-sort [] = refl
length-sort (x ∷ xs) = length-insert x (sort xs) ∙ ap suc (length-sort xs)

insert_comm : (a b : ℕ) (xs : List ℕ) → insert a (insert b xs) ≡ insert b (insert a xs)
unfolding insert
insert_comm a b [] = ground arith
insert_comm a b (x ∷ xs) = ground (arith, insert_comm a b xs)

sort_middle : (xs ys : List ℕ) (y : ℕ) → sort (xs ++ y ∷ ys) ≡ sort (y ∷ xs ++ ys)
unfolding sort
sort_middle [] ys y = refl
sort_middle (x ∷ xs) ys y = ap (insert x) (sort_middle xs ys y) ∙ insert_comm x y (sort (xs ++ ys))

-- Sorting forgets the order: two lists joined either way sort alike.
pub sort-append_comm : (xs ys : List ℕ) → sort (xs ++ ys) ≡ sort (ys ++ xs)
unfolding sort
sort-append_comm [] ys = ap sort (sym (append-nil ys))
sort-append_comm (x ∷ xs) ys = ap (insert x) (sort-append_comm xs ys) ∙ sym (sort_middle ys xs x)

-- The place of a value in a sorted list bounds how many values lie below it.
none_below : (v : ℕ) (xs : List ℕ) → All (λ y. v ≤ y) xs → count (λ x. ltb x v) xs ≡ 0
none_below v [] h = refl
none_below v (x ∷ xs) h = ground (arith, none_below v xs h.1)

get_or-All : (P : ℕ → Type 0) (xs : List ℕ) (i d : ℕ) → i < length xs → All P xs → P (get_or xs i d)
get_or-All P [] i d h k = absurd (omega arith)
get_or-All P (x ∷ xs) zero d h k = k.0
get_or-All P (x ∷ xs) (suc i) d h k = get_or-All P xs i d (omega arith) k.1

module _ (d : ℕ) where
  pub count_le-get_or :
      (xs : List ℕ) (i : ℕ)
      → i < length xs
      → IsSorted xs
      → i < count (λ x. leb x (get_or xs i d)) xs
  count_le-get_or [] i h s = absurd (omega arith)
  count_le-get_or (x ∷ xs) zero h s = ground arith
  count_le-get_or (x ∷ xs) (suc i) h s =
      let below : x ≤ get_or xs i d = get_or-All (λ y. x ≤ y) xs i d (omega arith) s.0 in
      ground (arith, count_le-get_or xs i (omega arith) s.1, below)

  pub count_lt-get_or :
      (xs : List ℕ) (i : ℕ)
      → i < length xs
      → IsSorted xs
      → count (λ x. ltb x (get_or xs i d)) xs ≤ i
  count_lt-get_or [] i h s = absurd (omega arith)
  count_lt-get_or (x ∷ xs) zero h s = ground (arith, none_below x xs s.0)
  count_lt-get_or (x ∷ xs) (suc i) h s = ground (arith, count_lt-get_or xs i (omega arith) s.1)

  pub count_eq-get_or :
      (xs : List ℕ) (i : ℕ) → i < length xs → 0 < count (λ x. x == get_or xs i d) xs
  count_eq-get_or [] i h = absurd (omega arith)
  count_eq-get_or (x ∷ xs) zero h = ground arith
  count_eq-get_or (x ∷ xs) (suc i) h = ground (arith, count_eq-get_or xs i (omega arith))

  pub get_or_mono :
      (xs : List ℕ) (i j : ℕ) → i ≤ j → j < length xs → IsSorted xs → get_or xs i d ≤ get_or xs j d
  get_or_mono [] i j h k s = absurd (omega arith)
  get_or_mono (x ∷ xs) zero zero h k s = omega arith
  get_or_mono (x ∷ xs) zero (suc j) h k s = get_or-All (λ y. x ≤ y) xs j d (omega arith) s.0
  get_or_mono (x ∷ xs) (suc i) zero h k s = absurd (omega arith)
  get_or_mono (x ∷ xs) (suc i) (suc j) h k s = get_or_mono xs i j (omega arith) (omega arith) s.1
