-- ===== src/Scripts/AdrCheck/Suite.antt =====
-- runSuite and the summary and exit code of main in scripts/adrcheck/main.go.
pub mod Verdicts
use go_performance_starter.Prelude.{
  ℕ, ◌+◌, Bool, true, false, List, [], ◌∷◌, ◌++◌, Option, none, some, if◌then◌else◌,
}
use go_performance_starter.Prelude.Text.{Text, codes, text_eq}
use go_performance_starter.Scripts.AdrCheck.{Node}
use go_performance_starter.Scripts.AdrCheck.Messages.{quoted}

pub record CheckConfig : Type 0 where
  pub id : Text
  pub adr : Text
  pub tc : Text
  pub status : Text
  pub added : Text
  pub graduated : Text

-- "PASS", "WARNING" and "BLOCKER"
pub data Verdict : Type 0 where
  pass : Verdict
  warning : Verdict
  blocker : Verdict

pub record CheckResult : Type 0 where
  pub config : CheckConfig
  pub result : Verdict
  pub violations : List Text
  pub remedy : Text

-- An entry of the map `checks`.
pub record Wired : Type 0 where
  pub fn : Node → List Text
  pub remedy : Text

pub record Run : Type 0 where
  pub results : List CheckResult
  pub failed : Bool

abbrev pub unwired : CheckConfig → CheckResult
unwired cfg = record {
  config = cfg;
  result = blocker;
  violations =
      (codes "config names check "
        ++ quoted cfg.id
        ++ codes
            " but no such check is wired (a key with no wired check fails, same rule as ADR-030)")
      ∷ [];
  remedy = codes "wire the check in scripts/adrcheck or remove the config entry";
}

-- What a wired check that found these violations does to the run.
unfoldable pub with_violations : Run → CheckConfig → Text → List Text → Run
unfolding text_eq
with_violations run cfg remedy [] = record run {
  results =
      run.results ++ record { config = cfg; result = pass; violations = []; remedy = [] } ∷ [];
}
with_violations run cfg remedy (v ∷ violations) =
    if text_eq cfg.status (codes "block")
    then record {
      results =
          run.results
          ++ record { config = cfg; result = blocker; violations = v ∷ violations; remedy = remedy }
            ∷ [];
      failed = true;
    }
    else record run {
      results =
          run.results
          ++ record { config = cfg; result = warning; violations = v ∷ violations; remedy = remedy }
            ∷ [];
    }

-- One pass of the loop of runSuite.
unfoldable pub run_check : Node → Run → CheckConfig → Option Wired → Run
unfolding with_violations
run_check root run cfg none = record { results = run.results ++ unwired cfg ∷ []; failed = true }
run_check root run cfg (some impl) = with_violations run cfg impl.remedy (impl.fn root)

module _ (checks : Text → Option Wired) (root : Node) where
  unfoldable pub run_from : Run → List CheckConfig → Run
  unfolding run_check
  run_from run [] = run
  run_from run (cfg ∷ config) = run_from (run_check root run cfg (checks cfg.id)) config

  unfoldable pub run_suite : List CheckConfig → Run
  unfolding run_from
  run_suite config = run_from (record { results = []; failed = false }) config

pub record Summary : Type 0 where
  pub passes : ℕ
  pub warnings : ℕ
  pub blockers : ℕ

abbrev pub tally : Summary → Verdict → Summary
tally s pass = record s { passes = s.passes + 1 }
tally s warning = record s { warnings = s.warnings + 1 }
tally s blocker = record s { blockers = s.blockers + 1 }

unfoldable pub count_from : Summary → List CheckResult → Summary
count_from s [] = s
count_from s (r ∷ results) = count_from (tally s r.result) results

-- the counts of main
unfoldable pub count_results : List CheckResult → Summary
unfolding count_from
count_results results = count_from (record { passes = 0; warnings = 0; blockers = 0 }) results

-- the exit code of main once the config is read
unfoldable pub exit_code : Run → ℕ
exit_code run = if run.failed then 1 else 0
