-- ===== src/Scripts/AdrCheck/Walking/Names.antt =====
-- Lists of names to skip, and the endings of the names of Go sources.
use go_performance_starter.Prelude.{
  not, ◌&&◌, ◌||◌, ◌∙◌, arith, Bool, true, false, List, [], ◌∷◌, ◌++◌, ◌≡◌, refl, ap, sym, subst,
  ◌⊎◌, inl, inr, Bool-cases,
}
use go_performance_starter.Prelude.Text.{Text, codes, text_eq, text_eq_iff, text_eq_refl}
use go_performance_starter.Prelude.Search.{has_suffix}
use go_performance_starter.Scripts.AdrCheck.{one_of_names, is_go_source}

-- `x` stands in the list.
pub data In {ℓ} {A : Type ℓ} (x : A) : List A → Type ℓ where
  here : {xs : List A} → In x (x ∷ xs)
  there : (y : A) {xs : List A} → In x xs → In x (y ∷ xs)

module _ {ℓ} {A : Type ℓ} {x : A} where
  pub In-left : {xs : List A} (ys : List A) → In x xs → In x (xs ++ ys)
  In-left ys here = here
  In-left ys (there y i) = there y (In-left ys i)

  pub In-right : (xs : List A) {ys : List A} → In x ys → In x (xs ++ ys)
  In-right [] i = i
  In-right (y ∷ xs) i = there y (In-right xs i)

  pub In-cases : (xs : List A) {ys : List A} → In x (xs ++ ys) → In x xs ⊎ In x ys
  In-cases [] i = inr i
  In-cases (y ∷ xs) here = inl here
  In-cases (y ∷ xs) (there _ i) = elim (In-cases xs i) [
    | inl before ↦ inl (there y before)
    | inr behind ↦ inr behind
  ]

-- The names of the directories that no check walks.
abbrev pub names_to_skip : List Text
names_to_skip =
    codes "node_modules"
    ∷ codes "vendor"
    ∷ codes "tmp"
    ∷ codes "dist"
    ∷ codes ".git"
    ∷ codes ".claude"
    ∷ []

pub one_of_names-In :
    (names : List Text) (name : Text) → one_of_names names name ≡ true → In name names
unfolding one_of_names
one_of_names-In [] name e = absurd (cc e)
one_of_names-In (n ∷ names) name e = elim (Bool-cases (text_eq n name)) [
  | inl same ↦ subst (λ x. In x (n ∷ names)) ((text_eq_iff n name).0 same) here
  | inr other ↦ there n (one_of_names-In names name (ground (arith, e, other)))
]

pub In-one_of_names :
    {name : Text} {names : List Text} → In name names → one_of_names names name ≡ true
unfolding one_of_names
In-one_of_names {name = name} here = ground (arith, text_eq_refl name)
In-one_of_names (there _ i) = ground (arith, In-one_of_names i)

pub not_one_of :
    (names : List Text) (name : Text) → one_of_names names name ≡ false → ¬ In name names
not_one_of names name e i = cc (sym (In-one_of_names i) ∙ e)

pub not_In : (names : List Text) (name : Text) → ¬ In name names → one_of_names names name ≡ false
not_In names name out = elim (Bool-cases (one_of_names names name)) [
  | inl e ↦ absurd (out (one_of_names-In names name e))
  | inr e ↦ e
]

abbrev pub EndsWith : Text → Text → Type 0
EndsWith suffix name = (stem : Text) × (name ≡ stem ++ suffix)

-- A Go source that is not generated, nor a test where those are left out.
abbrev pub IsGoSource : Bool → Text → Type 0
IsGoSource include_tests name =
    EndsWith (codes ".go") name
    × ¬ EndsWith (codes "_templ.go") name
    × ((include_tests ≡ true) ⊎ ¬ EndsWith (codes "_test.go") name)

has_suffix-here : (suffix : Text) → has_suffix suffix suffix ≡ true
unfolding has_suffix
has_suffix-here [] = text_eq_refl []
has_suffix-here (c ∷ s) = ground (arith, text_eq_refl (c ∷ s))

has_suffix-append : (stem suffix : Text) → has_suffix (stem ++ suffix) suffix ≡ true
unfolding has_suffix
has_suffix-append [] suffix = has_suffix-here suffix
has_suffix-append (c ∷ stem) suffix = ground (arith, has_suffix-append stem suffix)

has_suffix-EndsWith : (name suffix : Text) → has_suffix name suffix ≡ true → EndsWith suffix name
unfolding has_suffix
has_suffix-EndsWith [] suffix h = ([], (text_eq_iff [] suffix).0 h)
has_suffix-EndsWith (c ∷ name) suffix h = elim (Bool-cases (text_eq (c ∷ name) suffix)) [
  | inl e ↦ ([], (text_eq_iff (c ∷ name) suffix).0 e)
  | inr e ↦
      let (stem, same) = has_suffix-EndsWith name suffix (ground (arith, h, e)) in
      (c ∷ stem, ap (λ s. c ∷ s) same)
]

EndsWith-has_suffix : (name suffix : Text) → EndsWith suffix name → has_suffix name suffix ≡ true
EndsWith-has_suffix name suffix (stem, same) =
    subst (λ n. has_suffix n suffix ≡ true) (sym same) (has_suffix-append stem suffix)

or_true : (b : Bool) → (b || true) ≡ true
or_true true = refl
or_true false = refl

passes :
    (ends made is_test all : Bool)
    → (ends && not made && (all || not is_test)) ≡ true
    → (ends ≡ true) × (made ≡ false) × ((all ≡ true) ⊎ (is_test ≡ false))
passes true false is_test true h = (refl, refl, inl refl)
passes true false false false h = (refl, refl, inr refl)
passes true false true false h = absurd (cc h)
passes true true is_test all h = absurd (cc h)
passes false made is_test all h = absurd (cc h)

not_EndsWith : (name suffix : Text) → ¬ EndsWith suffix name → has_suffix name suffix ≡ false
not_EndsWith name suffix out = elim (Bool-cases (has_suffix name suffix)) [
  | inl e ↦ absurd (out (has_suffix-EndsWith name suffix e))
  | inr e ↦ e
]

pub not_has_suffix : (name suffix : Text) → has_suffix name suffix ≡ false → ¬ EndsWith suffix name
not_has_suffix name suffix e ends = cc (sym (EndsWith-has_suffix name suffix ends) ∙ e)

pub is_go_source-IsGoSource :
    (include_tests : Bool) (name : Text)
    → is_go_source include_tests name ≡ true
    → IsGoSource include_tests name
unfolding is_go_source
is_go_source-IsGoSource include_tests name h =
    let (ends, made, tests) =
      passes (has_suffix name (codes ".go")) (has_suffix name (codes "_templ.go"))
        (has_suffix name (codes "_test.go")) include_tests h in
    (
      has_suffix-EndsWith name (codes ".go") ends,
      not_has_suffix name (codes "_templ.go") made,
      elim tests [
        | inl all ↦ inl all
        | inr no_test ↦ inr (not_has_suffix name (codes "_test.go") no_test)
      ],
    )

pub IsGoSource-is_go_source :
    (include_tests : Bool) (name : Text)
    → IsGoSource include_tests name
    → is_go_source include_tests name ≡ true
unfolding is_go_source
IsGoSource-is_go_source include_tests name (ends, made, tests) =
    let go = EndsWith-has_suffix name (codes ".go") ends in
    let no_templ = not_EndsWith name (codes "_templ.go") made in
    elim tests [
      | inl all ↦ rw (go, no_templ, all) refl
      | inr no_test ↦
          rw (go, no_templ, not_EndsWith name (codes "_test.go") no_test) (or_true include_tests)
    ]
