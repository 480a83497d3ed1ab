-- ===== src/Performance/Latency/Cut.antt =====
-- Lists cut at the place of a write, and what a ring reads as from its place of writing.
use go_performance_starter.Prelude.{
  ℕ, zero, suc, ◌+◌, ◌%◌, ◌≤◌, ◌<◌, ◌≡◌, refl, ap, ◌∙◌, List, [], ◌∷◌, ◌++◌, append-nil, arith, ltb,
  if◌then◌else◌, length, take, drop, length-append, lt→ltb, le→ltb,
}
use native.Mathlib.Numerals.{add-one}

-- A list cut at a place that it has.
pub cut :
    (n : ℕ) (xs : List ℕ)
    → n < length xs
    → (a : List ℕ) × (x : ℕ) × (b : List ℕ) × (xs ≡ a ++ x ∷ b) × (n ≡ length a)
cut n [] h = absurd (omega arith)
cut zero (x ∷ xs) h = ([], x, xs, refl, refl)
cut (suc n) (x ∷ xs) h =
    let (a, y, b, e, l) = cut n xs (omega arith) in (x ∷ a, y, b, ap (◌∷◌ x) e, ap suc l)

-- The two ends of a list after the write at the end of `a`.
pub take_snoc : (a b : List ℕ) (d : ℕ) → take (suc (length a)) (a ++ d ∷ b) ≡ a ++ d ∷ []
take_snoc [] b d = refl
take_snoc (x ∷ a) b d = ap (◌∷◌ x) (take_snoc a b d)

pub drop_snoc : (a b : List ℕ) (d : ℕ) → drop (suc (length a)) (a ++ d ∷ b) ≡ b
drop_snoc [] b d = refl
drop_snoc (x ∷ a) b d = drop_snoc a b d

-- The place of the next write: one further, or the start after the last place.
pub next_wraps : (n m : ℕ) → suc n ≡ m → (n + 1) % m ≡ 0
next_wraps n m e = grind arith

pub next_steps : (n m : ℕ) → suc n < m → (n + 1) % m ≡ suc n
next_steps n m h = grind arith

pub length-snoc : (a b : List ℕ) (x : ℕ) → length (a ++ x ∷ b) ≡ suc (length a + length b)
length-snoc a b x = omega (arith, length-append a (x ∷ b))

-- What a ring reads as, by its length and its place of writing.
unfoldable pub view : List ℕ → ℕ → ℕ → List ℕ
view s next filled = if ltb filled (length s) then take filled s else drop next s ++ take next s

pub view_full :
    (s : List ℕ) (next filled : ℕ)
    → length s ≤ filled
    → view s next filled ≡ drop next s ++ take next s
unfolding view
view_full s next filled h = rw (le→ltb _ _ h)

pub view_partial :
    (s : List ℕ) (next filled : ℕ) → filled < length s → view s next filled ≡ take filled s
unfolding view
view_partial s next filled h = rw (lt→ltb _ _ h)

-- After a write at the end of `a` into a full ring: what followed, then `a`, then the new value.
pub view_after :
    (a b : List ℕ) (d filled : ℕ)
    → suc (length a + length b) ≤ filled
    → view (a ++ d ∷ b) ((length a + 1) % suc (length a + length b)) filled ≡ b ++ (a ++ d ∷ [])
view_after a [] d filled h =
    view_full _ _ filled (omega (arith, length-snoc a [] d))
    ∙ rw (next_wraps (length a) (suc (length a + 0)) (omega arith), append-nil)
view_after a (y ∷ b) d filled h =
    view_full _ _ filled (omega (arith, length-snoc a (y ∷ b) d))
    ∙ rw (
      next_steps (length a) (suc (length a + suc (length b))) (omega arith),
      drop_snoc,
      take_snoc,
    )

-- The same while the ring fills.
pub view_filling :
    (a b : List ℕ) (d : ℕ)
    → view (a ++ d ∷ b) ((length a + 1) % suc (length a + length b)) (length a + 1) ≡ a ++ d ∷ []
view_filling a [] d = view_after a [] d (length a + 1) (omega arith)
view_filling a (y ∷ b) d =
    view_partial _ _ _ (omega (arith, length-snoc a (y ∷ b) d)) ∙ rw (add-one, take_snoc)
