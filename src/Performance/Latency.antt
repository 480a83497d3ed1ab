-- ===== src/Performance/Latency.antt =====
-- internal/performance/observed.go: LatencyRecorder, a ring of the last request durations, and its
-- nearest-rank percentiles. Durations are non-negative numbers of nanoseconds. The mutex makes each
-- method one step, so a method is a function of the recorder.
mod Cut
pub mod Ring
pub mod History
pub mod Rank
mod Tests
use go_performance_starter.Prelude.{
  ℕ, suc, ◌+◌, ◌-◌, ◌*◌, ◌/◌, ◌%◌, min, max, List, [], ◌∷◌, ltb, ◌==◌, if◌then◌else◌, length,
  get_or, set, take, replicate,
}
use go_performance_starter.Prelude.Sort.{sort}

-- DefaultLatencyWindow
abbrev pub default_latency_window : ℕ
default_latency_window = 4096

pub record LatencyPercentiles : Type 0 where
  pub p50 : ℕ
  pub p95 : ℕ
  pub p99 : ℕ
  pub samples : ℕ

pub record LatencyRecorder : Type 0 where
  pub samples : List ℕ
  pub next : ℕ
  pub filled : ℕ

unfoldable pub new_latency_recorder : ℕ → LatencyRecorder
new_latency_recorder size = record {
  samples = replicate (if ltb size 1 then 1 else size) 0;
  next = 0;
  filled = 0;
}

-- Record
unfoldable pub record_sample : LatencyRecorder → ℕ → LatencyRecorder
record_sample r d = record {
  samples = set r.samples r.next d;
  next = (r.next + 1) % length r.samples;
  filled = if ltb r.filled (length r.samples) then r.filled + 1 else r.filled;
}

-- Len
unfoldable pub len : LatencyRecorder → ℕ
len r = r.filled

-- The index of `rank(p)`: `min(max(int(float64(n)*p+0.999999)-1, 0), n-1)`, for `p` a number of
-- hundredths. Scaled by 10^6: the fractional part of `n * p` is a multiple of 1/100, so a sum that is
-- no whole number is at least 10^-6 away from one, which is far more than the rounding error of a
-- float64 for the sizes that a window can have.
unfoldable pub rank_index : ℕ → ℕ → ℕ
rank_index n p = min (max ((n * p * 10000 + 999999) / 1000000 - 1) 0) (n - 1)

-- What `Percentiles` does with the copy that it took under the lock.
unfoldable pub summarize : List ℕ → LatencyPercentiles
unfolding rank_index
summarize [] = record { p50 = 0; p95 = 0; p99 = 0; samples = 0 }
summarize (x ∷ xs) =
    let n = suc (length xs) in
    let sorted = sort (x ∷ xs) in
    record {
      p50 = get_or sorted (rank_index n 50) 0;
      p95 = get_or sorted (rank_index n 95) 0;
      p99 = get_or sorted (rank_index n 99) 0;
      samples = n;
    }

-- Percentiles
unfoldable pub percentiles : LatencyRecorder → LatencyPercentiles
percentiles r = summarize (take r.filled r.samples)
