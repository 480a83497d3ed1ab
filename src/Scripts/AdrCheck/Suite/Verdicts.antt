-- ===== src/Scripts/AdrCheck/Suite/Verdicts.antt =====
-- The results, the summary and the exit code of a run of the suite agree.
use go_performance_starter.Prelude.{
  ℕ, suc, ◌+◌, Bool, true, false, List, [], ◌∷◌, ◌++◌, Option, none, some, if◌then◌else◌, ◌≡◌, refl,
  arith, length, ltb, map, append_assoc, append-nil, ◌||◌, sym, subst, ap, ◌∙◌,
}
use go_performance_starter.Prelude.Text.{Text, codes, text_eq}
use go_performance_starter.Scripts.AdrCheck.{Node}
use go_performance_starter.Scripts.AdrCheck.Suite.{
  CheckConfig, CheckResult, Verdict, pass, warning, blocker, Wired, Run, with_violations, run_check,
  run_from, run_suite, Summary, tally, count_from, count_results, exit_code, unwired,
}

abbrev is_blocker : Verdict → Bool
is_blocker pass = false
is_blocker warning = false
is_blocker blocker = true

abbrev blocks : CheckResult → Bool
blocks r = is_blocker r.result

abbrev some_blocks : List CheckResult → Bool
some_blocks [] = false
some_blocks (r ∷ rs) = blocks r || some_blocks rs

or_assoc : (a b c : Bool) → ((a || b) || c) ≡ (a || (b || c))
or_assoc a b c = ground arith

some_blocks-append :
    (rs ts : List CheckResult) → some_blocks (rs ++ ts) ≡ (some_blocks rs || some_blocks ts)
some_blocks-append [] ts = refl
some_blocks-append (r ∷ rs) ts = ground (arith, some_blocks-append rs ts)

-- The result of one check, apart from the run: its verdict depends on the status of the entry only
-- where it found violations.
abbrev judged : CheckConfig → Text → List Text → CheckResult
judged cfg remedy [] = record { config = cfg; result = pass; violations = []; remedy = [] }
judged cfg remedy (v ∷ vs) = record {
  config = cfg;
  result = if text_eq cfg.status (codes "block") then blocker else warning;
  violations = v ∷ vs;
  remedy = remedy;
}

abbrev result_of : Node → CheckConfig → Option Wired → CheckResult
result_of root cfg none = unwired cfg
result_of root cfg (some impl) = judged cfg impl.remedy (impl.fn root)

abbrev followed : Run → List CheckResult → Run
followed run rs = record { results = run.results ++ rs; failed = run.failed || some_blocks rs }

with_violations-judged :
    (run : Run) (cfg : CheckConfig) (remedy : Text) (vs : List Text)
    → with_violations run cfg remedy vs ≡ followed run (judged cfg remedy vs ∷ [])
unfolding with_violations
with_violations-judged run cfg remedy [] = ground arith
with_violations-judged run cfg remedy (v ∷ vs) = ground arith

run_check-result_of :
    (root : Node) (run : Run) (cfg : CheckConfig) (impl : Option Wired)
    → run_check root run cfg impl ≡ followed run (result_of root cfg impl ∷ [])
unfolding run_check
run_check-result_of root run cfg none = ground arith
run_check-result_of root run cfg (some impl) =
    with_violations-judged run cfg impl.remedy (impl.fn root)

followed_twice :
    (run : Run) (r : CheckResult) (rs : List CheckResult)
    → followed (followed run (r ∷ [])) rs ≡ followed run (r ∷ rs)
followed_twice run r rs = ground (arith, append_assoc run.results (r ∷ []) rs)

module _ (checks : Text → Option Wired) (root : Node) where
  abbrev result_for : CheckConfig → CheckResult
  result_for cfg = result_of root cfg (checks cfg.id)

  run_from-map :
      (run : Run) (config : List CheckConfig)
      → run_from checks root run config ≡ followed run (map result_for config)
  unfolding run_from
  run_from-map run [] = ground (arith, append-nil run.results)
  run_from-map run (cfg ∷ config) =
      ap (λ r. run_from checks root r config) (run_check-result_of root run cfg (checks cfg.id))
      ∙ run_from-map (followed run (result_for cfg ∷ [])) config
      ∙ followed_twice run (result_for cfg) (map result_for config)

abbrev total : Summary → ℕ
total s = s.passes + s.warnings + s.blockers

total-tally : (s : Summary) (v : Verdict) → total (tally s v) ≡ total s + 1
total-tally s pass = omega arith
total-tally s warning = omega arith
total-tally s blocker = omega arith

blockers-tally :
    (s : Summary) (v : Verdict) → ltb 0 (tally s v).blockers ≡ (ltb 0 s.blockers || is_blocker v)
blockers-tally s pass = ground arith
blockers-tally s warning = ground arith
blockers-tally s blocker = ground arith

count_from-total :
    (s : Summary) (rs : List CheckResult) → total (count_from s rs) ≡ total s + length rs
unfolding count_from
count_from-total s [] = omega arith
count_from-total s (r ∷ rs) =
    omega (arith, count_from-total (tally s r.result) rs, total-tally s r.result)

count_from-blockers :
    (s : Summary) (rs : List CheckResult)
    → ltb 0 (count_from s rs).blockers ≡ (ltb 0 s.blockers || some_blocks rs)
unfolding count_from
count_from-blockers s [] = ground arith
count_from-blockers s (r ∷ rs) =
    count_from-blockers (tally s r.result) rs
    ∙ ap (λ b. b || some_blocks rs) (blockers-tally s r.result)
    ∙ or_assoc (ltb 0 s.blockers) (blocks r) (some_blocks rs)

abbrev fresh : Run
fresh = record { results = []; failed = false }

length-map :
    (f : CheckConfig → CheckResult) (cfgs : List CheckConfig) → length (map f cfgs) ≡ length cfgs
length-map f [] = refl
length-map f (cfg ∷ cfgs) = ap suc (length-map f cfgs)

-- What a run says in the end, of the results and the number of entries it is to have.
abbrev pub Reports : List CheckResult → ℕ → Run → Type 0
Reports results n run =
    (run.results ≡ results)
    × (((count_results run.results).passes
            + (count_results run.results).warnings
            + (count_results run.results).blockers
          ≡ n)
        × (exit_code run ≡ (if ltb 0 (count_results run.results).blockers then 1 else 0)))

followed-Reports : (rs : List CheckResult) → Reports rs (length rs) (followed fresh rs)
unfolding count_results exit_code
followed-Reports rs = (
  refl,
  (
    omega (arith, count_from-total (record { passes = 0; warnings = 0; blockers = 0 }) rs),
    ap (λ b. if b then 1 else 0)
        (sym (count_from-blockers (record { passes = 0; warnings = 0; blockers = 0 }) rs)),
  ),
)

-- The run gives one result for each entry of the configuration, in order, each that of its own check
-- alone: it passes where its check finds nothing, and else blocks or warns, as its status says; an
-- entry that no check is wired for blocks. The three counts add up to the number of entries, and the
-- exit code is 1 exactly if there is a blocker among them.
pub run_suite-Reports :
    (checks : Text → Option Wired) (root : Node) (config : List CheckConfig)
    → Reports (map (result_for checks root) config) (length config) (run_suite checks root config)
unfolding run_suite
run_suite-Reports checks root config =
    subst (Reports (map (result_for checks root) config) (length config))
      (sym (run_from-map checks root fresh config))
      (rw (sym (length-map (result_for checks root) config))
        (followed-Reports (map (result_for checks root) config)))
