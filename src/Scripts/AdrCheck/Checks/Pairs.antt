-- ===== src/Scripts/AdrCheck/Checks/Pairs.antt =====
-- The check of the migrations is silent exactly on a directory of pairs.
use go_performance_starter.Prelude.{
  Bool, true, false, List, [], ◌∷◌, ◌++◌, some, if◌then◌else◌, ◌≡◌, refl, sym, ap, subst, ◌∙◌,
  arith, ◌↔◌, ◌⊎◌, inl, inr, Bool-cases, take, length-append, take-append_left, ◌||◌,
}
use go_performance_starter.Prelude.Text.{Text, codes, text_eq, text_eq_iff, text_eq_refl}
use go_performance_starter.Prelude.Search.{has_suffix, trim_suffix}
use go_performance_starter.Scripts.AdrCheck.{Node, Entries, nil, entry, read_dir, one_of_names}
use go_performance_starter.Scripts.AdrCheck.Walking.{In, here, there}
use go_performance_starter.Scripts.AdrCheck.Checks.{
  bases, unpaired, missing, migration_violations, check_migration_pairs, no_down, no_up,
}

abbrev names : Entries → List Text
names nil = []
names (entry name node rest) = name ∷ names rest

abbrev up : Text
up = codes ".up.sql"

abbrev down : Text
down = codes ".down.sql"

-- Every file is one of a pair, and the other is there.
abbrev pub IsPaired : Entries → Type 0
IsPaired entries =
    ((name : Text)
      → In name (names entries)
      → ((base : Text) × (name ≡ base ++ up)) ⊎ ((base : Text) × (name ≡ base ++ down)))
    × ((base : Text) → In (base ++ up) (names entries) ↔ In (base ++ down) (names entries))

has_suffix-split : (s p : Text) → has_suffix s p ≡ true → (front : Text) × (s ≡ front ++ p)
unfolding has_suffix
has_suffix-split [] p h = ([], (text_eq_iff [] p).0 h)
has_suffix-split (c ∷ s) p h = elim (Bool-cases (text_eq (c ∷ s) p)) [
  | inl whole ↦ ([], (text_eq_iff (c ∷ s) p).0 whole)
  | inr more ↦ let (front, e) = has_suffix-split s p (rw more at h) in (c ∷ front, ap (◌∷◌ c) e)
]

has_suffix-append : (front p : Text) → has_suffix (front ++ p) p ≡ true
unfolding has_suffix
has_suffix-append [] [] = refl
has_suffix-append [] (c ∷ p) = rw (text_eq_refl (c ∷ p)) refl
has_suffix-append (c ∷ front) p = ground (arith, has_suffix-append front p)

trim_suffix-append : (front p : Text) → trim_suffix (front ++ p) p ≡ front
unfolding trim_suffix
trim_suffix-append front p =
    rw (has_suffix-append front p, length-append front p)
      (ap (λ n. take n (front ++ p)) (omega arith) ∙ take-append_left front p)

-- What is trimmed and what is left make the name.
trim_suffix-rejoin : (s p : Text) → has_suffix s p ≡ true → trim_suffix s p ++ p ≡ s
trim_suffix-rejoin s p h =
    let (front, e) = has_suffix-split s p h in
    ap (λ name. trim_suffix name p ++ p) e ∙ ap (λ f. f ++ p) (trim_suffix-append front p) ∙ sym e

In-head : {x y : Text} {ys : List Text} → x ≡ y → In x (y ∷ ys)
In-head {x} {y} {ys} e = subst (λ z. In x (z ∷ ys)) e here

In-cases : {x y : Text} {ys : List Text} → In x (y ∷ ys) → (x ≡ y) ⊎ In x ys
In-cases here = inl refl
In-cases (there _ i) = inr i

one_of_names-In : (ns : List Text) (name : Text) → one_of_names ns name ≡ true → In name ns
unfolding one_of_names
one_of_names-In [] name h = absurd (ground arith)
one_of_names-In (n ∷ ns) name h = elim (Bool-cases (text_eq n name)) [
  | inl same ↦ subst (λ m. In name (m ∷ ns)) (sym ((text_eq_iff n name).0 same)) here
  | inr other ↦ there n (one_of_names-In ns name (rw other at h))
]

In-one_of_names : (ns : List Text) (name : Text) → In name ns → one_of_names ns name ≡ true
unfolding one_of_names
In-one_of_names [] name i = elim i [ ]
In-one_of_names (n ∷ ns) _ here = rw (text_eq_refl n) refl
In-one_of_names (n ∷ ns) name (there _ i) = ground (arith, In-one_of_names ns name i)

added-In :
    (b : Bool) (x : Text) (xs : List Text) {y : Text}
    → In y (if b then x ∷ xs else xs)
    → ((b ≡ true) × (y ≡ x)) ⊎ In y xs
added-In true x xs i = elim (In-cases i) [ inl e ↦ inl (refl, e) | inr later ↦ inr later ]
added-In false x xs i = inr i

In-added_later :
    (b : Bool) (x : Text) {xs : List Text} {y : Text} → In y xs → In y (if b then x ∷ xs else xs)
In-added_later true x i = there x i
In-added_later false x i = i

In-added :
    (b : Bool) {x : Text} (xs : List Text) {y : Text}
    → b ≡ true
    → y ≡ x
    → In y (if b then x ∷ xs else xs)
In-added true xs h e = In-head e
In-added false xs h e = absurd (ground arith)

bases-In :
    (p : Text) (entries : Entries) (base : Text)
    → In base (bases p entries)
    → In (base ++ p) (names entries)
unfolding bases
bases-In p nil base i = elim i [ ]
bases-In p (entry name node rest) base i =
    elim (added-In (has_suffix name p) (trim_suffix name p) (bases p rest) i) [
      | inl (ends, e) ↦ In-head (ap (λ b. b ++ p) e ∙ trim_suffix-rejoin name p ends)
      | inr later ↦ there name (bases-In p rest base later)
    ]

In-bases :
    (p : Text) (entries : Entries) (base : Text)
    → In (base ++ p) (names entries)
    → In base (bases p entries)
unfolding bases
In-bases p nil base i = elim i [ ]
In-bases p (entry name node rest) base i = elim (In-cases i) [
  | inl e ↦
      In-added (has_suffix name p) (bases p rest)
        (subst (λ s. has_suffix s p ≡ true) e (has_suffix-append base p))
        (sym (trim_suffix-append base p) ∙ ap (λ s. trim_suffix s p) e)
  | inr later ↦ In-added_later (has_suffix name p) (trim_suffix name p) (In-bases p rest base later)
]

module _ (message : Text → Text) where
  missing-In :
      (these those : List Text)
      → missing message these those ≡ []
      → (base : Text) → In base these
      → In base those
  unfolding missing
  missing-In [] those h base i = elim i [ ]
  missing-In (b ∷ these) those h base i = elim (Bool-cases (one_of_names those b)) [
    | inl found ↦ elim (In-cases i) [
      | inl e ↦ subst (λ x. In x those) (sym e) (one_of_names-In those b found)
      | inr later ↦ missing-In these those (rw found at h) base later
    ]
    | inr lost ↦ absurd (ground arith)
  ]

  In-missing :
      (these those : List Text)
      → ((base : Text) → In base these → In base those)
      → missing message these those ≡ []
  unfolding missing
  In-missing [] those h = refl
  In-missing (b ∷ these) those h =
      rw (In-one_of_names those b (h b here))
        (In-missing these those (λ base i. h base (there b i)))

unpaired-In :
    (entries : Entries) (name : Text)
    → unpaired entries ≡ []
    → In name (names entries)
    → (has_suffix name up || has_suffix name down) ≡ true
unfolding unpaired
unpaired-In nil name h i = elim i [ ]
unpaired-In (entry n node rest) name h i =
    elim (Bool-cases (has_suffix n up || has_suffix n down)) [
      | inl paired ↦ elim (In-cases i) [
        | inl e ↦ subst (λ s. (has_suffix s up || has_suffix s down) ≡ true) (sym e) paired
        | inr later ↦ unpaired-In rest name (rw paired at h) later
      ]
      | inr alone ↦ absurd (ground arith)
    ]

In-unpaired :
    (entries : Entries)
    → ((name : Text)
        → In name (names entries)
        → (has_suffix name up || has_suffix name down) ≡ true)
    → unpaired entries ≡ []
unfolding unpaired
In-unpaired nil h = refl
In-unpaired (entry n node rest) h = rw (h n here) (In-unpaired rest (λ name i. h name (there n i)))

append-nil_left : (xs ys : List Text) → xs ++ ys ≡ [] → xs ≡ []
append-nil_left [] ys e = refl
append-nil_left (x ∷ xs) ys e = absurd (ground arith)

append-nil_right : (xs ys : List Text) → xs ++ ys ≡ [] → ys ≡ []
append-nil_right [] ys e = e
append-nil_right (x ∷ xs) ys e = absurd (ground arith)

suffix-cases :
    (name : Text)
    → (has_suffix name up || has_suffix name down) ≡ true
    → ((base : Text) × (name ≡ base ++ up)) ⊎ ((base : Text) × (name ≡ base ++ down))
suffix-cases name h = elim (Bool-cases (has_suffix name up)) [
  | inl ends ↦ inl (has_suffix-split name up ends)
  | inr other ↦ inr (has_suffix-split name down (rw other at h))
]

suffix_of_cases :
    (name : Text)
    → ((base : Text) × (name ≡ base ++ up)) ⊎ ((base : Text) × (name ≡ base ++ down))
    → (has_suffix name up || has_suffix name down) ≡ true
suffix_of_cases name (inl (base, e)) = ground (arith, e, has_suffix-append base up)
suffix_of_cases name (inr (base, e)) = ground (arith, e, has_suffix-append base down)

migration_violations-IsPaired :
    (entries : Entries) → migration_violations (some entries) ≡ [] → IsPaired entries
unfolding migration_violations
migration_violations-IsPaired entries h =
    let ups = bases up entries in
    let downs = bases down entries in
    let no_twin = missing no_down ups downs in
    let no_twin_back = missing no_up downs ups in
    let front = append-nil_left (unpaired entries ++ no_twin) no_twin_back h in
    let to_down =
      missing-In no_down ups downs (append-nil_right (unpaired entries) no_twin front) in
    let to_up =
      missing-In no_up downs ups (append-nil_right (unpaired entries ++ no_twin) no_twin_back h) in
    let all_paired = append-nil_left (unpaired entries) no_twin front in
    (
      λ name i. suffix-cases name (unpaired-In entries name all_paired i),
      λ base. (
        λ i. bases-In down entries base (to_down base (In-bases up entries base i)),
        λ i. bases-In up entries base (to_up base (In-bases down entries base i)),
      ),
    )

IsPaired-migration_violations :
    (entries : Entries) → IsPaired entries → migration_violations (some entries) ≡ []
unfolding migration_violations
IsPaired-migration_violations entries (each_name, both_ways) =
    let ups = bases up entries in
    let downs = bases down entries in
    rw
      (
        In-unpaired entries (λ name i. suffix_of_cases name (each_name name i)),
        In-missing no_down ups downs (λ base i.
            In-bases down entries base ((both_ways base).0 (bases-In up entries base i))),
        In-missing no_up downs ups (λ base i.
            In-bases up entries base ((both_ways base).1 (bases-In down entries base i))),
      )
      refl

-- Where the directory of the migrations can be read, the check finds nothing exactly if every file
-- in it ends in .up.sql or .down.sql, and for each one the other of the same base is there as well.
pub check_migration_pairs_iff :
    (root : Node) (entries : Entries)
    → read_dir root (codes "migrations" ∷ []) ≡ some entries
    → (check_migration_pairs root ≡ []) ↔ IsPaired entries
unfolding check_migration_pairs
check_migration_pairs_iff root entries listed = (
  λ h. migration_violations-IsPaired entries (rw listed at h),
  λ h. rw listed (IsPaired-migration_violations entries h),
)
