-- ===== src/Performance/Latency/History.antt =====
-- LatencyRecorder against the whole history of what was recorded.
use go_performance_starter.Prelude.{
  ℕ, zero, suc, ◌-◌, ◌≤◌, max, ◌≡◌, refl, sym, ap, ◌∙◌, subst, List, [], ◌∷◌, ◌++◌, append_assoc,
  append-nil, inl, inr, arith, ltb, if◌then◌else◌, length, drop, length-append, length-set,
  length-drop, length-replicate, Bool-cases, false, ltb→lt, ltb→le, lt→ltb, le→ltb,
}
use go_performance_starter.Performance.Latency.{
  LatencyRecorder, new_latency_recorder, record_sample,
}
use go_performance_starter.Performance.Latency.Ring.{
  IsRing, new_latency_recorder-IsRing, record_sample-IsRing, window, push_bounded,
  window-record_sample,
}

-- The last `n` elements.
abbrev pub latest : ℕ → List ℕ → List ℕ
latest n xs = drop (length xs - n) xs

-- All the durations of a list, recorded in order.
abbrev pub record_all : LatencyRecorder → List ℕ → LatencyRecorder
record_all r [] = r
record_all r (d ∷ ds) = record_all (record_sample r d) ds

pub record_all-IsRing : (r : LatencyRecorder) (ds : List ℕ) → IsRing r → IsRing (record_all r ds)
record_all-IsRing r [] v = v
record_all-IsRing r (d ∷ ds) v =
    record_all-IsRing (record_sample r d) ds (record_sample-IsRing r d v)

length-record_sample :
    (r : LatencyRecorder) (d : ℕ) → length (record_sample r d).samples ≡ length r.samples
unfolding record_sample
length-record_sample r d = length-set r.samples r.next d

drop-append_le : (n : ℕ) (xs ys : List ℕ) → n ≤ length xs → drop n (xs ++ ys) ≡ drop n xs ++ ys
drop-append_le zero xs ys h = refl
drop-append_le (suc n) [] ys h = absurd (omega arith)
drop-append_le (suc n) (x ∷ xs) ys h = drop-append_le n xs ys (omega arith)

drop-drop : (n : ℕ) (xs : List ℕ) → drop 1 (drop n xs) ≡ drop (suc n) xs
drop-drop zero [] = refl
drop-drop zero (x ∷ xs) = refl
drop-drop (suc n) [] = refl
drop-drop (suc n) (x ∷ xs) = drop-drop n xs

push-latest : (n : ℕ) (h : List ℕ) (d : ℕ) → push_bounded n (latest n h) d ≡ latest n (h ++ d ∷ [])
push-latest n h d = elim (Bool-cases (ltb (length h) n)) [
  | inl few ↦
      let none_dropped : length h - n ≡ 0 = omega (arith, ltb→lt _ _ few) in
      let none_after : length (h ++ d ∷ []) - n ≡ 0 =
        omega (arith, ltb→lt _ _ few, length-append h (d ∷ [])) in
      rw (none_dropped, none_after, few)
  | inr many ↦
      let at_most : n ≤ length h = ltb→le _ _ many in
      let one_more : length (h ++ d ∷ []) - n ≡ suc (length h - n) =
        omega (arith, length-append h (d ∷ [])) in
      let is_full : ltb (length (drop (length h - n) h)) n ≡ false =
        le→ltb _ _ (omega (arith, length-drop (length h - n) h)) in
      rw (one_more, is_full, ← drop-append_le (length h - n) h (d ∷ []) (omega arith))
        (drop-drop (length h - n) (h ++ d ∷ []))
]

module _ (size : ℕ) where
  -- The invariant of a run: the window is the latest part of what was recorded so far.
  record_all_from :
      (r : LatencyRecorder) (h ds : List ℕ)
      → IsRing r
      → length r.samples ≡ size
      → window r ≡ latest size h
      → window (record_all r ds) ≡ latest size (h ++ ds)
  record_all_from r h [] v n e = e ∙ ap (latest size) (sym (append-nil h))
  record_all_from r h (d ∷ ds) v n e =
      record_all_from (record_sample r d) (h ++ d ∷ []) ds (record_sample-IsRing r d v)
        (length-record_sample r d ∙ n)
        (window-record_sample r d v
          ∙ subst (λ (m : ℕ). push_bounded m (window r) d ≡ push_bounded size (latest size h) d)
              (sym n) (ap (λ w. push_bounded size w d) e)
          ∙ push-latest size h d)
      ∙ ap (latest size) (append_assoc h (d ∷ []) ds)

drop_nil : (n : ℕ) → drop {A = ℕ} n [] ≡ []
drop_nil zero = refl
drop_nil (suc n) = refl

new_size : (size : ℕ) → length (new_latency_recorder size).samples ≡ max size 1
unfolding new_latency_recorder
new_size size = length-replicate _ 0 ∙ ground arith

window-new_latency_recorder : (size : ℕ) → window (new_latency_recorder size) ≡ []
unfolding new_latency_recorder
window-new_latency_recorder size =
    rw (length-replicate, lt→ltb 0 (if ltb size 1 then 1 else size) (ground arith))

-- After any run of durations the recorder's window holds exactly the last of them, in the order in
-- which they were recorded: as many as the size that it was made for, or one if that is zero.
pub window-record_all :
    (size : ℕ) (ds : List ℕ)
    → window (record_all (new_latency_recorder size) ds) ≡ latest (max size 1) ds
window-record_all size ds =
    record_all_from (max size 1) (new_latency_recorder size) [] ds
      (new_latency_recorder-IsRing size) (new_size size)
      (window-new_latency_recorder size ∙ sym (drop_nil (0 - max size 1)))
