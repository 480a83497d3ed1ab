-- ===== src/Performance/Latency/Tests.antt =====
-- LatencyRecorder at concrete runs.
use go_performance_starter.Prelude.{◌≡◌, refl, List, [], ◌∷◌, ℕ, arith}
use go_performance_starter.Prelude.Sort.{sort}
use go_performance_starter.Performance.Latency.{
  new_latency_recorder, record_sample, percentiles, summarize, len,
}
use go_performance_starter.Performance.Latency.Ring.{window}
use go_performance_starter.Performance.Latency.History.{latest, record_all, window-record_all}
use go_performance_starter.Performance.Latency.Rank.{Ranks, percentiles-Ranks}

-- Five requests in a window of three.
abbrev run : List ℕ
run = 50 ∷ 10 ∷ 40 ∷ 20 ∷ 30 ∷ []

percentiles_test :
    percentiles (record_all (new_latency_recorder 3) run)
    ≡ record { p50 = 30; p95 = 40; p99 = 40; samples = 3 }
unfolding percentiles summarize record_sample new_latency_recorder sort
percentiles_test = refl

len_test : len (record_all (new_latency_recorder 3) run) ≡ 3
unfolding len record_sample new_latency_recorder
len_test = refl

window-record_all_example : window (record_all (new_latency_recorder 3) run) ≡ latest 3 run
window-record_all_example = window-record_all 3 run

percentiles-Ranks_example :
    Ranks (latest 3 run) (percentiles (record_all (new_latency_recorder 3) run))
percentiles-Ranks_example = percentiles-Ranks 3 run (omega arith)
