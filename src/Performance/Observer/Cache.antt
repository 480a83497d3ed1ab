-- ===== src/Performance/Observer/Cache.antt =====
-- The cache of the latency percentiles.
use mathlib.Core.List.{Memᴰ}
use go_performance_starter.Prelude.{
  ℕ, ◌+◌, ◌-◌, ◌≤◌, ◌<◌, ◌≡◌, refl, sym, subst, Option, none, some, List, [], ◌∷◌, arith, leb,
  Bool-cases, true, false, inl, inr,
}
use go_performance_starter.Performance.Latency.{LatencyRecorder, LatencyPercentiles, percentiles}
use go_performance_starter.Performance.Observer.{
  Observer, new_observer, record_latency, cached_percentiles, latency_cache_ttl, is_stale,
}

-- A process under observation: a request ends, or someone looks after some time has passed.
pub data Event : Type 0 where
  request : ℕ → Event
  look : ℕ → Event

-- The observer, the clock, and the recorder as each look so far found it.
pub record Process : Type 0 where
  pub observer : Observer
  pub clock : ℕ
  pub seen : List (ℕ × LatencyRecorder)

unfoldable pub step : Process → Event → Process
step s (request d) = record s { observer = record_latency s.observer d }
step s (look elapsed) =
    let now = s.clock + elapsed in
    record {
      observer = (cached_percentiles s.observer now).0;
      clock = now;
      seen = (now, s.observer.latency) ∷ s.seen;
    }

abbrev pub run : Process → List Event → Process
run s [] = s
run s (e ∷ es) = run (step s e) es

abbrev pub start : ℕ → Process
start now = record { observer = new_observer now; clock = now; seen = [] }

-- These are the percentiles of the recorder as a look less than the TTL ago found it.
pub record IsFresh (seen : List (ℕ × LatencyRecorder)) (now : ℕ) (p : LatencyPercentiles)
    : Type 0 where
  pub at : ℕ
  pub recorder : LatencyRecorder
  pub looked : Memᴰ (at, recorder) seen
  pub ranked : p ≡ percentiles recorder
  pub earlier : at ≤ now
  pub recent : now < at + latency_cache_ttl

-- The invariant: the cache is empty, or was filled by a look.
abbrev Filled : List (ℕ × LatencyRecorder) → ℕ → LatencyPercentiles → Option ℕ → Type 0
Filled seen now p none = Unit
Filled seen now p (some at) =
    (r : LatencyRecorder) × Memᴰ (at, r) seen × (p ≡ percentiles r) × (at ≤ now)

abbrev IsCached : Process → Type 0
IsCached s = Filled s.seen s.clock s.observer.latency_cached s.observer.latency_at

module _ (o : Observer) (now : ℕ) where
  on_stale :
      is_stale o.latency_at now ≡ true
      → cached_percentiles o now ≡ (
        record o { latency_at = some now; latency_cached = percentiles o.latency },
        percentiles o.latency,
      )
  unfolding cached_percentiles
  on_stale e = rw e

  on_recent : is_stale o.latency_at now ≡ false → cached_percentiles o now ≡ (o, o.latency_cached)
  unfolding cached_percentiles
  on_recent e = rw e

-- What a look shows is fresh, and it leaves a filled cache.
abbrev Looked : Process → ℕ → Observer × LatencyPercentiles → Type 0
Looked s now (o, p) =
    Filled ((now, s.observer.latency) ∷ s.seen) now o.latency_cached o.latency_at
    × IsFresh ((now, s.observer.latency) ∷ s.seen) now p

Looked-stale :
    (s : Process) (now : ℕ)
    → is_stale s.observer.latency_at now ≡ true
    → Looked s now (cached_percentiles s.observer now)
Looked-stale s now e = subst (Looked s now) (sym (on_stale s.observer now e)) (
  (s.observer.latency, Memᴰ.head refl, refl, omega arith),
  record {
    at = now;
    recorder = s.observer.latency;
    looked = Memᴰ.head refl;
    ranked = refl;
    earlier = omega arith;
    recent = omega arith;
  },
)

Looked-recent :
    (s : Process) (now at : ℕ)
    → s.clock ≤ now
    → s.observer.latency_at ≡ some at
    → leb latency_cache_ttl (now - at) ≡ false
    → Filled s.seen s.clock s.observer.latency_cached (some at)
    → Looked s now (cached_percentiles s.observer now)
Looked-recent s now at later e young (r, found, ranked, before) =
    subst (Looked s now) (sym (on_recent s.observer now (rw e young))) (
      rw e (r, Memᴰ.tail found, ranked, omega arith),
      record {
        at = at;
        recorder = r;
        looked = Memᴰ.tail found;
        ranked = ranked;
        earlier = omega arith;
        recent = ground arith;
      },
    )

Looked-any :
    (s : Process) (now : ℕ) (at : Option ℕ)
    → s.clock ≤ now
    → s.observer.latency_at ≡ at
    → Filled s.seen s.clock s.observer.latency_cached at
    → Looked s now (cached_percentiles s.observer now)
Looked-any s now none later e f = Looked-stale s now (rw e)
Looked-any s now (some at) later e f = elim (Bool-cases (leb latency_cache_ttl (now - at))) [
  | inl old ↦ Looked-stale s now (rw e old)
  | inr young ↦ Looked-recent s now at later e young f
]

step-IsCached : (s : Process) (e : Event) → IsCached s → IsCached (step s e)
unfolding step record_latency
step-IsCached s (request d) h = h
step-IsCached s (look elapsed) h = (Looked-any s (s.clock + elapsed) _ (omega arith) refl h).0

run-IsCached : (s : Process) (es : List Event) → IsCached s → IsCached (run s es)
run-IsCached s [] h = h
run-IsCached s (e ∷ es) h = run-IsCached (step s e) es (step-IsCached s e h)

-- Whatever requests and looks went before, a look after any time shows percentiles that were ranked
-- by a look, this one or one less than a second ago, from the recorder as that look found it.
pub percentiles-IsFresh :
    (boot elapsed : ℕ) (es : List Event)
    → IsFresh
        (step (run (start boot) es) (look elapsed)).seen
        (step (run (start boot) es) (look elapsed)).clock
        (cached_percentiles
          (run (start boot) es).observer
          ((run (start boot) es).clock + elapsed)).1
unfolding step new_observer
percentiles-IsFresh boot elapsed es =
    (Looked-any (run (start boot) es) _ _ (omega arith) refl (run-IsCached (start boot) es tt)).1
