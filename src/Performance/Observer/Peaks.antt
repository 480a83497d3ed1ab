-- ===== src/Performance/Observer/Peaks.antt =====
-- What Observer remembers of the process: the high-water mark, the startup time and the sizes.
use go_performance_starter.Prelude.{
  ℕ, ◌<◌, max, ◌≡◌, refl, ap, ◌∙◌, List, [], ◌∷◌, arith, inl, inr, ltb→lt, ltb, if◌then◌else◌,
  Bool-cases,
}
use go_performance_starter.Performance.Observer.{
  Observer, Readings, Snapshot, new_observer, record_startup, observe_memory, snapshot,
  measure_assets, measure_binary, cached_percentiles,
}

-- The readings of the runtime metrics, each heap in use and memory mapped, one after another.
abbrev pub observe_all : Observer → List (ℕ × ℕ) → Observer
observe_all o [] = o
observe_all o ((heap, sys) ∷ rs) = observe_all (observe_memory o heap sys).0 rs

abbrev pub largest : ℕ → List (ℕ × ℕ) → ℕ
largest m [] = m
largest m ((heap, sys) ∷ rs) = largest (max m sys) rs

peak_sys-observe_memory :
    (o : Observer) (heap sys : ℕ) → (observe_memory o heap sys).0.peak_sys ≡ max o.peak_sys sys
unfolding observe_memory
peak_sys-observe_memory o heap sys = ground arith

peak_sys-observe_all :
    (o : Observer) (rs : List (ℕ × ℕ)) → (observe_all o rs).peak_sys ≡ largest o.peak_sys rs
peak_sys-observe_all o [] = refl
peak_sys-observe_all o ((heap, sys) ∷ rs) =
    peak_sys-observe_all (observe_memory o heap sys).0 rs
    ∙ ap (λ m. largest m rs) (peak_sys-observe_memory o heap sys)

-- In a process that has read its memory metrics any number of times, the next reading comes back as
-- it was read, and with it the largest amount of mapped memory of all the readings, this one too.
pub observe_memory-largest :
    (started heap sys : ℕ) (rs : List (ℕ × ℕ))
    → (observe_memory (observe_all (new_observer started) rs) heap sys).1
      ≡ (heap, sys, max (largest 0 rs) sys)
unfolding observe_memory new_observer
observe_memory-largest started heap sys rs =
    let e = peak_sys-observe_all (new_observer started) rs in ground (arith, e)

-- RecordStartup called any number of times.
abbrev pub startup_all : Observer → List ℕ → Observer
startup_all o [] = o
startup_all o (d ∷ ds) = startup_all (record_startup o d) ds

abbrev pub first_positive : List ℕ → ℕ
first_positive [] = 0
first_positive (d ∷ ds) = if ltb 0 d then d else first_positive ds

startup_kept : (o : Observer) (ds : List ℕ) → 0 < o.startup → (startup_all o ds).startup ≡ o.startup
unfolding record_startup
startup_kept o [] h = refl
startup_kept o (d ∷ ds) h = startup_kept (record_startup o d) ds (ground arith) ∙ ground arith

startup-record_startup :
    (o : Observer) (d : ℕ)
    → o.startup ≡ 0
    → (record_startup o d).startup ≡ (if ltb 0 d then d else 0)
unfolding record_startup
startup-record_startup o d h = ground arith

startup_from_zero :
    (o : Observer) (ds : List ℕ) → o.startup ≡ 0 → (startup_all o ds).startup ≡ first_positive ds
startup_from_zero o [] h = h
startup_from_zero o (d ∷ ds) h =
    let first = startup-record_startup o d h in
    elim (Bool-cases (ltb 0 d)) [
      | inl positive ↦
          let set_now : (record_startup o d).startup ≡ d = ground (arith, first) in
          rw positive
            (startup_kept (record_startup o d) ds (omega (arith, ltb→lt 0 d positive)) ∙ set_now)
      | inr no_time ↦ rw no_time (startup_from_zero (record_startup o d) ds (ground (arith, first)))
    ]

-- However often the startup time is recorded, the observer keeps the first positive one, and zero
-- ("not measured") as long as there was none.
pub startup-first_positive :
    (started : ℕ) (ds : List ℕ)
    → (startup_all (new_observer started) ds).startup ≡ first_positive ds
unfolding new_observer
startup-first_positive started ds = startup_from_zero (new_observer started) ds refl

-- The three sizes of a reading.
abbrev pub sizes : Snapshot → ℕ × ℕ × ℕ
sizes s = (s.js_gzipped, s.css_gzipped, s.binary_size)

-- A snapshot measures the sizes of the shipped assets and of the executable only once: the next one
-- shows what the first one did, whatever the disk then holds.
pub sizes_once :
    (o : Observer) (first second : Readings)
    → sizes (snapshot (snapshot o first).0 second).1 ≡ sizes (snapshot o first).1
unfolding snapshot measure_assets measure_binary cached_percentiles observe_memory
sizes_once o first second = ground arith
