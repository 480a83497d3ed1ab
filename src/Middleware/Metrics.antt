-- ===== src/Middleware/Metrics.antt =====
-- internal/middleware/metrics.go: the response writer that counts, and what is recorded of a request.
-- The Prometheus collectors are the observations themselves; the format of Server-Timing is a parameter.
pub mod Recorded
mod Tests
use go_performance_starter.Prelude.{
  ℕ, ◌+◌, ◌-◌, Bool, true, false, Option, none, some, List, [], ◌∷◌, ◌++◌, ltb, length,
  if◌then◌else◌,
}
use go_performance_starter.Prelude.Text.{Text, codes}
use go_performance_starter.Writers.{
  Writer, write_header, write, set_header, Act, sets_header, writes_header, writes,
}
use go_performance_starter.Performance.Budgets.{
  max_p50_response_time, max_p95_response_time, max_p99_response_time,
}
use go_performance_starter.Performance.Observer.{Observer, record_latency}

-- responseWriter; a start that is absent is the zero time
pub record ResponseWriter : Type 0 where
  pub inner : Writer
  pub status_code : ℕ
  pub bytes_written : ℕ
  pub start : Option ℕ
  pub wrote_header : Bool

-- What Metrics observes of a request, but for its method and route.
pub record Observations : Type 0 where
  pub status : ℕ
  pub duration : ℕ
  pub response_size : ℕ
  pub violations : List Text

module _ (timing : ℕ → Text) where
  abbrev stamp : Option ℕ → ℕ → Writer → Writer
  stamp none now w = w
  stamp (some start) now w = set_header w "Server-Timing" (timing (now - start))

  -- WriteHeader
  unfoldable pub counted_write_header : ResponseWriter → ℕ → ℕ → ResponseWriter
  counted_write_header rw_ now code = if rw_.wrote_header then rw_ else record rw_ {
    wrote_header = true;
    status_code = code;
    inner = write_header (stamp rw_.start now rw_.inner) code;
  }

  -- Write; n is the number of bytes
  unfoldable pub counted_write : ResponseWriter → ℕ → List ℕ → ResponseWriter
  counted_write rw_ now bytes =
      let w = if rw_.wrote_header then rw_ else counted_write_header rw_ now 200 in
      record w { inner = write w.inner bytes; bytes_written = w.bytes_written + length bytes }

  -- A handler's calls on the wrapper, each at its time.
  unfoldable pub counted_act : ResponseWriter → ℕ × Act → ResponseWriter
  counted_act w (now, sets_header name value) = record w { inner = set_header w.inner name value }
  counted_act w (now, writes_header code) = counted_write_header w now code
  counted_act w (now, writes bytes) = counted_write w now bytes

  unfoldable pub counted_acts : ResponseWriter → List (ℕ × Act) → ResponseWriter
  counted_acts w [] = w
  counted_acts w (a ∷ acts) = counted_acts (counted_act w a) acts

  abbrev over : ℕ → ℕ → Text → List Text
  over budget duration name = if ltb budget duration then name ∷ [] else []

  -- checkPerformanceBudget: the budgets whose counters it increments
  unfoldable pub check_performance_budget : ℕ → List Text
  check_performance_budget duration =
      over max_p50_response_time duration (codes "p50_response_time")
      ++ over max_p95_response_time duration (codes "p95_response_time")
      ++ over max_p99_response_time duration (codes "p99_response_time")

  -- Metrics, for a request that comes at `start`, whose handler makes these calls and is done at `end`
  unfoldable pub metrics :
      Observer → (start end : ℕ) → List (ℕ × Act) → Writer → Observer × (Writer × Observations)
  metrics observer start end acts w =
      let ww =
        counted_acts
          (record {
            inner = w;
            status_code = 200;
            bytes_written = 0;
            start = some start;
            wrote_header = false;
          })
          acts in
      let duration = end - start in
      (
        record_latency observer duration,
        (
          ww.inner,
          record {
            status = ww.status_code;
            duration = duration;
            response_size = ww.bytes_written;
            violations = check_performance_budget duration;
          },
        ),
      )
