-- ===== src/Performance/Latency/Rank.antt =====
-- The percentiles that LatencyRecorder reports are nearest ranks of its window.
use go_performance_starter.Prelude.{
  ℕ, suc, ◌+◌, ◌-◌, ◌*◌, ◌≤◌, ◌<◌, max, ◌≡◌, refl, sym, ap, ◌∙◌, subst, List, [], ◌∷◌, arith, ltb,
  leb, ◌==◌, length, get_or, take, drop, Bool-cases, inl, inr, take-append-drop, take_all,
  length-drop, ltb→le,
}
use go_performance_starter.Prelude.Sort.{
  sort, count, sort-IsSorted, count-sort, length-sort, sort-append_comm, count_le-get_or,
  count_lt-get_or, count_eq-get_or, get_or_mono,
}
use go_performance_starter.Performance.Latency.{
  LatencyPercentiles, LatencyRecorder, new_latency_recorder, rank_index, summarize, percentiles,
}
use go_performance_starter.Performance.Latency.Ring.{IsRing, window, new_latency_recorder-IsRing}
use go_performance_starter.Performance.Latency.History.{
  latest, record_all, record_all-IsRing, window-record_all,
}

-- The nearest rank of `p` percent: a sampled value that at least `p` percent of the samples do not
-- exceed, while fewer than `p` percent lie below it.
pub record IsNearestRank (p : ℕ) (xs : List ℕ) (v : ℕ) : Type 0 where
  pub sampled : 0 < count (λ x. x == v) xs
  pub reached : length xs * p ≤ 100 * count (λ x. leb x v) xs
  pub tight : 100 * count (λ x. ltb x v) xs < length xs * p

-- The index is in range, and it is the least one that covers `p` percent of `n` samples.
rank_index_lem :
    (n p : ℕ)
    → 0 < n
    → 0 < p
    → p ≤ 100
    → (rank_index n p < n) × (n * p ≤ 100 * rank_index n p + 100) × (100 * rank_index n p < n * p)
unfolding rank_index
rank_index_lem n p hn hp h100 =
    let most : n * p ≤ n * 100 = grind arith in
    let some_part : 0 < n * p = grind arith in (omega arith, omega arith, omega arith)

rank_index_mono : (n p q : ℕ) → p ≤ q → rank_index n p ≤ rank_index n q
unfolding rank_index
rank_index_mono n p q h = let more : n * p ≤ n * q = grind arith in omega arith

-- The value at the index of `p` percent.
at_rank : ℕ → List ℕ → ℕ
at_rank p xs = get_or (sort xs) (rank_index (length xs) p) 0

at_rank-IsNearestRank :
    (p : ℕ) (xs : List ℕ) → 0 < length xs → 0 < p → p ≤ 100 → IsNearestRank p xs (at_rank p xs)
unfolding at_rank
at_rank-IsNearestRank p xs h hp h100 =
    let (inside, covers, least) = rank_index_lem (length xs) p h hp h100 in
    let i = rank_index (length xs) p in
    let here : i < length (sort xs) = omega (arith, length-sort xs) in
    let v = get_or (sort xs) i 0 in
    record {
      sampled =
          subst (λ (n : ℕ). 0 < n) (count-sort (λ x. x == v) xs)
            (count_eq-get_or 0 (sort xs) i here);
      reached = omega (
        arith,
        count_le-get_or 0 (sort xs) i here (sort-IsSorted xs),
        count-sort (λ x. leb x v) xs,
      );
      tight = omega (
        arith,
        count_lt-get_or 0 (sort xs) i here (sort-IsSorted xs),
        count-sort (λ x. ltb x v) xs,
      );
    }

at_rank_mono :
    (p q : ℕ) (xs : List ℕ) → 0 < length xs → 0 < q → p ≤ q → q ≤ 100 → at_rank p xs ≤ at_rank q xs
unfolding at_rank
at_rank_mono p q xs h hq le h100 =
    get_or_mono 0 (sort xs) _ _ (rank_index_mono (length xs) p q le)
      (omega (arith, length-sort xs, (rank_index_lem (length xs) q h hq h100).0)) (sort-IsSorted xs)

-- A summary that ranks these samples, in order.
pub record Ranks (xs : List ℕ) (s : LatencyPercentiles) : Type 0 where
  pub p50 : IsNearestRank 50 xs s.p50
  pub p95 : IsNearestRank 95 xs s.p95
  pub p99 : IsNearestRank 99 xs s.p99
  pub ordered : (s.p50 ≤ s.p95) × (s.p95 ≤ s.p99)
  pub samples : s.samples ≡ length xs

summarize-Ranks : (xs : List ℕ) → 0 < length xs → Ranks xs (summarize xs)
unfolding summarize at_rank
summarize-Ranks [] h = absurd (omega arith)
summarize-Ranks (x ∷ xs) h = record {
  p50 = at_rank-IsNearestRank 50 (x ∷ xs) h (omega arith) (omega arith);
  p95 = at_rank-IsNearestRank 95 (x ∷ xs) h (omega arith) (omega arith);
  p99 = at_rank-IsNearestRank 99 (x ∷ xs) h (omega arith) (omega arith);
  ordered = (
    at_rank_mono 50 95 (x ∷ xs) h (omega arith) (omega arith) (omega arith),
    at_rank_mono 95 99 (x ∷ xs) h (omega arith) (omega arith) (omega arith),
  );
  samples = refl;
}

length-eq_of_sort : (xs ys : List ℕ) → sort xs ≡ sort ys → length xs ≡ length ys
length-eq_of_sort xs ys e = sym (length-sort xs) ∙ ap length e ∙ length-sort ys

-- The order in which the ring holds the samples does not matter.
summarize_of_sort : (xs ys : List ℕ) → sort xs ≡ sort ys → summarize xs ≡ summarize ys
unfolding summarize
summarize_of_sort [] [] e = refl
summarize_of_sort [] (y ∷ ys) e = absurd (omega (arith, length-eq_of_sort [] (y ∷ ys) e))
summarize_of_sort (x ∷ xs) [] e = absurd (omega (arith, length-eq_of_sort (x ∷ xs) [] e))
summarize_of_sort (x ∷ xs) (y ∷ ys) e =
    let n : suc (length xs) ≡ suc (length ys) = length-eq_of_sort (x ∷ xs) (y ∷ ys) e in rw (e, n)

-- What is ranked is the window, whatever its rotation in the ring.
percentiles-window : (r : LatencyRecorder) → IsRing r → percentiles r ≡ summarize (window r)
unfolding percentiles
percentiles-window r v = elim (Bool-cases (ltb r.filled (length r.samples))) [
  | inl filling ↦ rw filling
  | inr full ↦ rw full (
      ap summarize
        (take_all r.filled r.samples (ltb→le _ _ full) ∙ sym (take-append-drop r.next r.samples))
      ∙ summarize_of_sort _ _ (sort-append_comm (take r.next r.samples) (drop r.next r.samples)))
]

-- After any run of durations the recorder reports the summary of the latest ones, as many as its
-- size.
pub percentiles-record_all :
    (size : ℕ) (ds : List ℕ)
    → percentiles (record_all (new_latency_recorder size) ds) ≡ summarize (latest (max size 1) ds)
percentiles-record_all size ds =
    percentiles-window _ (record_all-IsRing _ ds (new_latency_recorder-IsRing size))
    ∙ ap summarize (window-record_all size ds)

-- After a run of at least one duration the reported p50, p95 and p99 are the nearest ranks of the
-- latest durations, as many as the recorder's size (or one, for size zero): each is one of them, at
-- least that percentage of them does not exceed it, and less than that percentage lies below it.
-- They are in order, and the reported number of samples is the number of durations ranked.
pub percentiles-Ranks :
    (size : ℕ) (ds : List ℕ)
    → 0 < length ds
    → Ranks (latest (max size 1) ds) (percentiles (record_all (new_latency_recorder size) ds))
percentiles-Ranks size ds h = rw (percentiles-record_all size ds) (
    summarize-Ranks (latest (max size 1) ds)
      (omega (arith, length-drop (length ds - max size 1) ds)))
