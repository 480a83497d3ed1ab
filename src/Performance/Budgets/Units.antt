-- ===== src/Performance/Budgets/Units.antt =====
-- formatBytes: the loop ends, the unit exists, and it is the right one.
use native.Mathlib.Nat.{mul-le-mul_left, pow-suc, pow-zero, pow-le-pow_right}
use native.Mathlib.Decide.{dec_lt}
use go_performance_starter.Prelude.{
  ℕ, zero, suc, ◌+◌, ◌*◌, ◌/◌, ◌^◌, ◌≤◌, ◌<◌, ◌≡◌, refl, Option, none, some, arith, ltb, leb,
  Bool-cases, inl, inr, leb→le, ltb→lt, ltb→le,
}
use go_performance_starter.Performance.Budgets.{
  scale, unit_letter, label, Formatted, plain, scaled, format_bytes,
}

-- The loop's result for a number of bytes: the largest power of 1024 that fits.
record IsScale (bytes : ℕ) (r : Option (ℕ × ℕ)) : Type 0 where
  div : ℕ
  exp : ℕ
  done : r ≡ some (div, exp)
  power : div ≡ 1024 ^ suc exp
  fits : div ≤ bytes
  largest : bytes < div * 1024

scale_lem :
    (fuel n div exp bytes : ℕ)
    → 0 < n
    → n < 1024 ^ fuel
    → div ≡ 1024 ^ suc exp
    → div * n ≤ bytes
    → bytes < div * (n + 1)
    → IsScale bytes (scale fuel n div exp)
unfolding scale
scale_lem zero n div exp bytes pos few p lo hi = absurd (omega (arith, pow-zero 1024))
scale_lem (suc fuel) n div exp bytes pos few p lo hi = elim (Bool-cases (leb 1024 n)) [
  | inl more ↦
      let whole : 1024 * (n / 1024) ≤ n = omega arith in
      let next : n + 1 ≤ 1024 * (n / 1024 + 1) = omega arith in
      rw more (
        scale_lem fuel (n / 1024) (div * 1024) (suc exp) bytes (omega (arith, leb→le _ _ more))
          (omega (arith, pow-suc 1024 fuel)) (omega (arith, pow-suc 1024 (suc exp)))
          (omega (arith, mul-le-mul_left div whole)) (omega (arith, mul-le-mul_left div next)))
  | inr last ↦
      let below : n + 1 ≤ 1024 = ground arith in
      rw last (record {
        div = div;
        exp = exp;
        done = refl;
        power = p;
        fits = omega (arith, mul-le-mul_left div pos);
        largest = omega (arith, mul-le-mul_left div below);
      })
]

letter_total : (e : ℕ) → e < 6 → (l : ℕ) × (unit_letter e ≡ some l)
letter_total zero h = (_, refl)
letter_total (suc zero) h = (_, refl)
letter_total (suc (suc zero)) h = (_, refl)
letter_total (suc (suc (suc zero))) h = (_, refl)
letter_total (suc (suc (suc (suc zero)))) h = (_, refl)
letter_total (suc (suc (suc (suc (suc zero))))) h = (_, refl)
letter_total (suc (suc (suc (suc (suc (suc e)))))) h = absurd (omega arith)

-- An int64 that is not negative.
abbrev pub IsInt64 : ℕ → Type 0
IsInt64 n = n < 2 ^ 63

exponent_bound : (bytes exp : ℕ) → IsInt64 bytes → 1024 ^ suc exp ≤ bytes → exp < 6
exponent_bound bytes exp h fits = elim (dec_lt exp 6) [
  | yes small ↦ small
  | no big ↦
      let high : 1024 ^ 7 ≤ 1024 ^ suc exp =
        pow-le-pow_right {n = 1024} (omega arith) {i = 7} {j = suc exp} (omega arith) in
      absurd (omega arith)
]

-- A readable rendering of a number of bytes: below 1024 the number itself, and from there on the
-- number over the largest power of 1024 that does not exceed it, with that power's unit.
abbrev pub IsReadable : ℕ → Option Formatted → Type 0
IsReadable n none = ⊥
IsReadable n (some (plain m)) = (m ≡ n) × (n < 1024)
IsReadable n (some (scaled m div letter)) =
    (m ≡ n)
    × (div ≤ n)
    × (n < div * 1024)
    × ((exp : ℕ) × (div ≡ 1024 ^ suc exp) × (unit_letter exp ≡ some letter))

label-IsReadable : (n : ℕ) (r : Option (ℕ × ℕ)) → IsInt64 n → IsScale n r → IsReadable n (label n r)
label-IsReadable n r h s =
    let small = exponent_bound n s.exp h (omega (arith, s.power, s.fits)) in
    let (letter, known) = letter_total s.exp small in
    rw (s.done, known) (refl, s.fits, s.largest, (s.exp, s.power, known))

-- For every int64 that is not negative the loop of formatBytes ends, the unit that it indexes
-- exists, and the result is a readable rendering of the number.
pub format_bytes-IsReadable : (bytes : ℕ) → IsInt64 bytes → IsReadable bytes (format_bytes bytes)
unfolding format_bytes
format_bytes-IsReadable bytes h = elim (Bool-cases (ltb bytes 1024)) [
  | inl small ↦ rw small (refl, ltb→lt _ _ small)
  | inr large ↦
      let enough = ltb→le _ _ large in
      rw large (
        label-IsReadable bytes _ h (
          scale_lem 7 (bytes / 1024) 1024 0 bytes (omega arith) (omega arith) refl (omega arith)
            (omega arith)))
]
