-- ===== src/Performance/Latency/Ring.antt =====
-- The ring is a bounded queue: LatencyRecorder against the list of the durations that it holds.
use go_performance_starter.Prelude.{
  ℕ, suc, ◌+◌, ◌≤◌, ◌<◌, ◌≡◌, refl, sym, ap, ◌∙◌, List, [], ◌∷◌, ◌++◌, append_assoc, inl, inr, ◌⊎◌,
  arith, ltb, if◌then◌else◌, length, take, drop, length-append, length-set, length-replicate,
  take-append_left, drop-append_left, set-append_left, Bool-cases, false, ltb→lt, ltb→le, lt→ltb,
  le→ltb,
}
use mathlib.Core.Path.{subst₂}
use go_performance_starter.Performance.Latency.{
  LatencyRecorder, new_latency_recorder, record_sample,
}
use go_performance_starter.Performance.Latency.Cut.{
  cut, length-snoc, view, view_after, view_filling,
}

pub record IsRing (r : LatencyRecorder) : Type 0 where
  pub next_in_range : r.next < length r.samples
  pub filled_in_range : r.filled ≤ length r.samples
  pub not_full : r.filled < length r.samples → r.next ≡ r.filled

pub new_latency_recorder-IsRing : (size : ℕ) → IsRing (new_latency_recorder size)
unfolding new_latency_recorder
new_latency_recorder-IsRing size = record {
  next_in_range = rw length-replicate (ground arith);
  filled_in_range = omega arith;
  not_full = λ _. refl;
}

-- Recording writes inside the ring and keeps its bookkeeping right.
pub record_sample-IsRing : (r : LatencyRecorder) (d : ℕ) → IsRing r → IsRing (record_sample r d)
unfolding record_sample
record_sample-IsRing r d v = record {
  next_in_range = rw length-set (grind arith);
  filled_in_range = rw length-set (ground arith);
  not_full = rw length-set (λ h. grind arith);
}

-- The recorded durations that the ring still holds, oldest first.
abbrev pub window : LatencyRecorder → List ℕ
window r =
    if ltb r.filled (length r.samples)
    then take r.filled r.samples
    else drop r.next r.samples ++ take r.next r.samples

-- A bounded queue: the specification of the recorder.
abbrev pub push_bounded : ℕ → List ℕ → ℕ → List ℕ
push_bounded size w d = if ltb (length w) size then w ++ d ∷ [] else drop 1 (w ++ d ∷ [])

-- Recording `d` in the ring with these fields is pushing it.
abbrev Pushes : List ℕ → ℕ → ℕ → ℕ → Type 0
Pushes s next filled d =
    window (record_sample (record { samples = s; next = next; filled = filled }) d)
    ≡ push_bounded (length s) (view s next filled) d

-- While the ring fills, nothing has been recorded but `a`.
push_filling : (a b : List ℕ) (x d : ℕ) → Pushes (a ++ x ∷ b) (length a) (length a) d
unfolding record_sample view
push_filling a b x d =
    rw
      (
        set-append_left a b x d,
        length-snoc a b x,
        lt→ltb (length a) (suc (length a + length b)) (omega arith),
        take-append_left a (x ∷ b),
      )
      (rw (lt→ltb (length a) (suc (length a + length b)) (omega arith)) (view_filling a b d))

push_full :
    (a b : List ℕ) (x d filled : ℕ)
    → filled ≡ suc (length a + length b)
    → Pushes (a ++ x ∷ b) (length a) filled d
unfolding record_sample view
push_full a b x d filled e =
    let full : ltb filled (suc (length a + length b)) ≡ false = le→ltb _ _ (omega arith) in
    let all : ltb (suc (length (b ++ a))) (suc (length a + length b)) ≡ false =
      le→ltb _ _ (omega (arith, length-append b a)) in
    rw
      (
        set-append_left a b x d,
        length-snoc a b x,
        full,
        take-append_left a (x ∷ b),
        drop-append_left a (x ∷ b),
        all,
        append_assoc,
      )
      (view_after a b d filled (omega arith))

push_at :
    (a b : List ℕ) (x d filled : ℕ)
    → (filled ≡ length a) ⊎ (filled ≡ suc (length a + length b))
    → Pushes (a ++ x ∷ b) (length a) filled d
push_at a b x d filled (inl e) = rw e (push_filling a b x d)
push_at a b x d filled (inr e) = push_full a b x d filled e

-- Recording is pushing: the window of the new ring is the old window with the duration at its end,
-- and without its oldest one if it was full.
pub window-record_sample :
    (r : LatencyRecorder) (d : ℕ)
    → IsRing r
    → window (record_sample r d) ≡ push_bounded (length r.samples) (window r) d
unfolding view
window-record_sample r d v =
    let (a, x, b, e, l) = cut r.next r.samples v.next_in_range in
    subst₂ (λ s next. Pushes s next r.filled d) (sym e) (sym l)
      (push_at a b x d r.filled (elim (Bool-cases (ltb r.filled (length r.samples))) [
        | inl filling ↦ inl (sym (v.not_full (ltb→lt _ _ filling)) ∙ l)
        | inr full ↦
            inr (omega (arith, ltb→le _ _ full, v.filled_in_range, ap length e, length-snoc a b x))
      ]))
