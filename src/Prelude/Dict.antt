-- ===== src/Prelude/Dict.antt =====
-- Go maps with string keys, as association lists without repeated keys. The program never depends
-- on the order in which a map is walked where this is used.
use text.Mathlib.Text.{◌==◌ as str_eq}
use text.Mathlib.TextEquality.{eq_iff}
use text.Mathlib.TextPositions.{eq_refl}
use Prim.Native.String.{String}
use mathlib.Core.Path.{◌≡◌, refl}
use mathlib.Core.Bool.{Bool}
use mathlib.Core.Logic.{inl, inr}
use mathlib.Core.Option.{Option, none, some}
use mathlib.Core.List.{List, [], ◌∷◌}
use native.Mathlib.Omega.{arith}
use go_performance_starter.Prelude.Tests.{if◌then◌else◌, Bool-cases}

abbrev pub Dict {ℓ} : Type ℓ → Type ℓ
Dict V = List (String × V)

module _ {ℓ} {V : Type ℓ} where
  unfoldable pub lookup : String → Dict V → Option V
  lookup name [] = none
  lookup name (entry ∷ rest) = if str_eq entry.0 name then some entry.1 else lookup name rest

  -- delete(m, k)
  unfoldable without : String → Dict V → Dict V
  without name [] = []
  without name (entry ∷ rest) =
      let left = without name rest in if str_eq entry.0 name then left else entry ∷ left

  -- m[k] = v
  unfoldable pub insert : String → V → Dict V → Dict V
  unfolding without
  insert name v m = (name, v) ∷ without name m

  -- for k, v := range m { if !keep(v) { delete(m, k) } }
  unfoldable pub retain : (V → Bool) → Dict V → Dict V
  retain keep [] = []
  retain keep ((k, v) ∷ m) = let rest = retain keep m in if keep v then (k, v) ∷ rest else rest

  lookup-without :
      (name other : String) (m : Dict V)
      → lookup other (without name m) ≡ (if str_eq name other then none else lookup other m)
  unfolding lookup without
  lookup-without name other [] = ground arith
  lookup-without name other (entry ∷ rest) = ground (
    arith,
    lookup-without name other rest,
    eq_iff entry.0 name,
    eq_iff entry.0 other,
    eq_iff name other,
  )

  pub lookup-insert :
      (name other : String) (v : V) (m : Dict V)
      → lookup other (insert name v m) ≡ (if str_eq name other then some v else lookup other m)
  unfolding insert lookup
  lookup-insert name other v m = ground (arith, lookup-without name other m)

  -- No key stands twice. (A key that `lookup` does not find stands nowhere.)
  abbrev pub IsUnique : Dict V → Type ℓ
  IsUnique [] = Unit
  IsUnique ((k, v) ∷ m) = (lookup k m ≡ none) × IsUnique m

  IsUnique-without : (name : String) (m : Dict V) → IsUnique m → IsUnique (without name m)
  unfolding without
  IsUnique-without name [] h = tt
  IsUnique-without name ((k, v) ∷ rest) (fresh, h) = elim (Bool-cases (str_eq k name)) [
    | inl same ↦ rw same (IsUnique-without name rest h)
    | inr apart ↦
        rw apart (ground (arith, lookup-without name k rest), IsUnique-without name rest h)
  ]

  pub IsUnique-insert : (k : String) (v : V) (m : Dict V) → IsUnique m → IsUnique (insert k v m)
  unfolding insert
  IsUnique-insert name v m h =
      (rw (lookup-without name name m, eq_refl name) refl, IsUnique-without name m h)

  abbrev pub retained : (V → Bool) → Option V → Option V
  retained keep none = none
  retained keep (some v) = if keep v then some v else none

  lookup_retained_none :
      (keep : V → Bool) (k : String) (m : Dict V)
      → lookup k m ≡ none
      → lookup k (retain keep m) ≡ none
  unfolding lookup retain
  lookup_retained_none keep k [] h = refl
  lookup_retained_none keep k ((j, v) ∷ m) h = ground (arith, lookup_retained_none keep k m)

  pub lookup-retain :
      (keep : V → Bool) (k : String) (m : Dict V)
      → IsUnique m
      → lookup k (retain keep m) ≡ retained keep (lookup k m)
  unfolding lookup retain
  lookup-retain keep k [] h = refl
  lookup-retain keep k ((j, v) ∷ m) (fresh, h) = elim (Bool-cases (str_eq j k)) [
    | inl same ↦
        let gone = lookup_retained_none keep k m (rw ((eq_iff j k).0 same) at fresh) in
        rw same (ground (arith, gone))
    | inr other ↦ rw other (ground (arith, lookup-retain keep k m h))
  ]

  pub IsUnique-retain : (keep : V → Bool) (m : Dict V) → IsUnique m → IsUnique (retain keep m)
  unfolding retain
  IsUnique-retain keep [] h = tt
  IsUnique-retain keep ((j, v) ∷ m) (fresh, h) = elim (Bool-cases (keep v)) [
    | inl kept ↦ rw kept (lookup_retained_none keep j m fresh, IsUnique-retain keep m h)
    | inr gone ↦ rw gone (IsUnique-retain keep m h)
  ]
