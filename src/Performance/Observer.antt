-- ===== src/Performance/Observer.antt =====
-- internal/performance/observed.go: Observer. The clocks, runtime/metrics and the files are read from
-- outside, so a method takes what it reads. A mutex or a sync.Once makes each part one step.
pub mod Peaks
pub mod Cache
mod Tests
use go_performance_starter.Prelude.{
  ℕ, ◌+◌, ◌-◌, ◌≡◌, Bool, true, false, ◌&&◌, Option, none, some, ltb, leb, ◌==◌, if◌then◌else◌,
}
use go_performance_starter.Performance.Latency.{
  LatencyPercentiles, LatencyRecorder, new_latency_recorder, record_sample, len, percentiles,
  default_latency_window,
}

-- LatencyCacheTTL, in nanoseconds
abbrev pub latency_cache_ttl : ℕ
latency_cache_ttl = 1000000000

pub record Observer : Type 0 where
  pub latency : LatencyRecorder
  pub started_at : ℕ
  pub startup : ℕ
  pub peak_sys : ℕ
  pub assets_done : Bool
  pub js_gz : ℕ
  pub css_gz : ℕ
  pub binary_done : Bool
  pub binary_size : ℕ
  -- `none` is the zero time
  pub latency_at : Option ℕ
  pub latency_cached : LatencyPercentiles

pub record Snapshot : Type 0 where
  pub uptime : ℕ
  pub goroutines : ℕ
  pub samples : ℕ
  pub p50 : ℕ
  pub p95 : ℕ
  pub p99 : ℕ
  pub heap_in_use : ℕ
  pub sys : ℕ
  pub peak_sys : ℕ
  pub startup : ℕ
  pub binary_size : ℕ
  pub js_gzipped : ℕ
  pub css_gzipped : ℕ

-- What one call of Snapshot reads from the process and the disk; `none` is an error.
pub record Readings : Type 0 where
  pub now : ℕ
  pub heap : ℕ
  pub sys : ℕ
  pub goroutines : ℕ
  pub js : Option ℕ
  pub css : Option ℕ
  pub binary : Option ℕ

-- NewObserver
unfoldable pub new_observer : ℕ → Observer
new_observer now = record {
  latency = new_latency_recorder default_latency_window;
  started_at = now;
  startup = 0;
  peak_sys = 0;
  assets_done = false;
  js_gz = 0;
  css_gz = 0;
  binary_done = false;
  binary_size = 0;
  latency_at = none;
  latency_cached = record { p50 = 0; p95 = 0; p99 = 0; samples = 0 };
}

-- RecordLatency
unfoldable pub record_latency : Observer → ℕ → Observer
record_latency o d = record o { latency = record_sample o.latency d }

-- LatencySamples
unfoldable pub latency_samples : Observer → ℕ
latency_samples o = len o.latency

-- RecordStartup
unfoldable pub record_startup : Observer → ℕ → Observer
record_startup o d = if o.startup == 0 && ltb 0 d then record o { startup = d } else o

-- ObserveMemory; the reading comes back with the high-water mark
unfoldable pub observe_memory : Observer → ℕ → ℕ → Observer × (ℕ × ℕ × ℕ)
observe_memory o heap sys =
    let peak = if ltb o.peak_sys sys then sys else o.peak_sys in
    (record o { peak_sys = peak }, (heap, sys, peak))

-- the test of `percentiles`
abbrev is_stale : Option ℕ → ℕ → Bool
is_stale none now = true
is_stale (some at) now = leb latency_cache_ttl (now - at)

-- percentiles
unfoldable pub cached_percentiles : Observer → ℕ → Observer × LatencyPercentiles
cached_percentiles o now =
    let fresh = percentiles o.latency in
    if is_stale o.latency_at now
    then (record o { latency_at = some now; latency_cached = fresh }, fresh)
    else (o, o.latency_cached)

-- A measurement that failed leaves the earlier value.
abbrev or_keep : Option ℕ → ℕ → ℕ
or_keep none old = old
or_keep (some new) old = new

-- assetsOnce.Do
unfoldable pub measure_assets : Observer → Option ℕ → Option ℕ → Observer
measure_assets o js css =
    if o.assets_done
    then o
    else record o { assets_done = true; js_gz = or_keep js o.js_gz; css_gz = or_keep css o.css_gz }

-- binaryOnce.Do
unfoldable pub measure_binary : Observer → Option ℕ → Observer
measure_binary o size =
    if o.binary_done
    then o
    else record o { binary_done = true; binary_size = or_keep size o.binary_size }

-- Snapshot
unfoldable pub snapshot : Observer → Readings → Observer × Snapshot
snapshot o env =
    let (o1, (heap, sys, peak)) = observe_memory o env.heap env.sys in
    let (o2, p) = cached_percentiles o1 env.now in
    let o3 = measure_binary (measure_assets o2 env.js env.css) env.binary in
    (
      o3,
      record {
        uptime = env.now - o3.started_at;
        goroutines = env.goroutines;
        samples = p.samples;
        p50 = p.p50;
        p95 = p.p95;
        p99 = p.p99;
        heap_in_use = heap;
        sys = sys;
        peak_sys = peak;
        startup = o3.startup;
        binary_size = o3.binary_size;
        js_gzipped = o3.js_gz;
        css_gzipped = o3.css_gz;
      },
    )
