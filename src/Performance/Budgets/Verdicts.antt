-- ===== src/Performance/Budgets/Verdicts.antt =====
-- What the budget checks accept and report.
use text.Mathlib.TextEquality.{eq_iff}
use go_performance_starter.Prelude.{
  ℕ, ◌+◌, ◌≤◌, ◌≡◌, ap, ◌∙◌, ◌↔◌, ◌⊎◌, ◌++◌, String, Option, none, some, List, [], ◌∷◌, arith, ltb,
  inl, inr, if◌then◌else◌,
}
use go_performance_starter.Performance.Budgets.{
  max_p50_response_time, max_p95_response_time, max_p99_response_time, CheckError, violation, size,
  check_response_time, format_bytes, total, failed, gzipped_size, gzipped_from, gzipped_total,
  check_gzipped_asset_size, asset_verdict,
}

-- CheckResponseTime accepts exactly the three known percentiles within their budgets: 50, 100 and
-- 200 milliseconds.
pub check_response_time_accepts :
    (d : ℕ) (p : String)
    → (check_response_time d p ≡ none) ↔ (
        (p ≡ "p50") × (d ≤ max_p50_response_time)
        ⊎ ((p ≡ "p95") × (d ≤ max_p95_response_time) ⊎ (p ≡ "p99") × (d ≤ max_p99_response_time)))
unfolding check_response_time
check_response_time_accepts d p = (
  λ h. ground (arith, eq_iff p "p50", eq_iff p "p95", eq_iff p "p99"),
  elim [
    | inl (e, le) ↦ rw e (ground arith)
    | inr (inl (e, le)) ↦ rw e (ground arith)
    | inr (inr (e, le)) ↦ rw e (ground arith)
  ],
)

module _ (read_file : String → Option (List ℕ)) (gzip_length : List ℕ → Option ℕ) where
  -- Every file is there and compresses; the numbers are the compressed sizes.
  abbrev pub Sizes : List String → List ℕ → Type 0
  Sizes [] [] = Unit
  Sizes (p ∷ ps) (n ∷ ns) =
      (gzipped_size read_file gzip_length p (read_file p) ≡ total n) × Sizes ps ns
  Sizes [] (n ∷ ns) = ⊥
  Sizes (p ∷ ps) [] = ⊥

  abbrev pub sum : List ℕ → ℕ
  sum [] = 0
  sum (n ∷ ns) = n + sum ns

  gzipped_from_lem :
      (t : ℕ) (ps : List String) (ns : List ℕ)
      → Sizes ps ns
      → gzipped_from read_file gzip_length t ps ≡ total (t + sum ns)
  unfolding gzipped_from
  gzipped_from_lem t [] [] h = ap total (omega arith)
  gzipped_from_lem t [] (n ∷ ns) h = absurd h
  gzipped_from_lem t (p ∷ ps) [] h = absurd h
  gzipped_from_lem t (p ∷ ps) (n ∷ ns) (e, h) =
      rw e (gzipped_from_lem (t + n) ps ns h ∙ ap total (omega arith))

  -- The gate on the shipped assets adds up the compressed sizes of all the files, and accepts if
  -- their sum is within the budget; it reports the budget and the sum otherwise.
  pub check_gzipped_asset_size_verdict :
      (name : String) (budget : ℕ) (ps : List String) (ns : List ℕ)
      → Sizes ps ns
      → check_gzipped_asset_size read_file gzip_length name budget ps ≡ (
          if ltb budget (sum ns)
          then some (violation name (size (format_bytes budget)) (size (format_bytes (sum ns))))
          else none)
  unfolding check_gzipped_asset_size gzipped_total
  check_gzipped_asset_size_verdict name budget ps ns h =
      ap (asset_verdict read_file gzip_length name budget)
        (gzipped_from_lem 0 ps ns h ∙ ap total (omega arith))

  -- The files before one that cannot be measured, and that one.
  gzipped_from-failed :
      (t : ℕ) (ps : List String) (ns : List ℕ) (p : String) (rest : List String) (e : CheckError)
      → Sizes ps ns
      → gzipped_size read_file gzip_length p (read_file p) ≡ failed e
      → gzipped_from read_file gzip_length t (ps ++ p ∷ rest) ≡ failed e
  unfolding gzipped_from
  gzipped_from-failed t [] [] p rest e h bad = rw bad
  gzipped_from-failed t [] (n ∷ ns) p rest e h bad = absurd h
  gzipped_from-failed t (q ∷ ps) [] p rest e h bad = absurd h
  gzipped_from-failed t (q ∷ ps) (n ∷ ns) p rest e (m, h) bad =
      rw m (gzipped_from-failed (t + n) ps ns p rest e h bad)

  -- The gate never passes when a file is missing or does not compress: it returns the error of the
  -- first such file, whatever the budget.
  pub check_gzipped_asset_size-failed :
      (name : String) (budget : ℕ) (ps : List String) (ns : List ℕ) (p : String)
      (rest : List String) (e : CheckError)
      → Sizes ps ns
      → gzipped_size read_file gzip_length p (read_file p) ≡ failed e
      → check_gzipped_asset_size read_file gzip_length name budget (ps ++ p ∷ rest) ≡ some e
  unfolding check_gzipped_asset_size gzipped_total
  check_gzipped_asset_size-failed name budget ps ns p rest e h bad =
      ap (asset_verdict read_file gzip_length name budget)
        (gzipped_from-failed 0 ps ns p rest e h bad)
