-- ===== src/Performance/Budgets.antt =====
-- internal/performance/budgets.go: the budgets of ADR-000 and their checks. Sizes and durations are
-- non-negative; a duration is a number of nanoseconds. Files and the gzip writer are parameters.
pub mod Units
pub mod Verdicts
mod Tests
use text.Mathlib.Text.{◌==◌ as str_eq}
use go_performance_starter.Prelude.{
  ℕ, zero, suc, ◌+◌, ◌*◌, ◌/◌, String, Option, none, some, List, [], ◌∷◌, ltb, leb, if◌then◌else◌,
}

abbrev pub millisecond : ℕ
millisecond = 1000000

abbrev pub max_p50_response_time : ℕ
max_p50_response_time = 50 * millisecond

abbrev pub max_p95_response_time : ℕ
max_p95_response_time = 100 * millisecond

abbrev pub max_p99_response_time : ℕ
max_p99_response_time = 200 * millisecond

abbrev pub max_binary_size : ℕ
max_binary_size = 20 * 1024 * 1024

abbrev pub max_memory_usage : ℕ
max_memory_usage = 128 * 1024 * 1024

abbrev pub max_startup_time : ℕ
max_startup_time = 500 * millisecond

-- The unit letters "KMGTPE"; `none` stands for the panic of an index out of range.
abbrev pub unit_letter : ℕ → Option ℕ
unit_letter zero = some b'K'
unit_letter (suc zero) = some b'M'
unit_letter (suc (suc zero)) = some b'G'
unit_letter (suc (suc (suc zero))) = some b'T'
unit_letter (suc (suc (suc (suc zero)))) = some b'P'
unit_letter (suc (suc (suc (suc (suc zero))))) = some b'E'
unit_letter (suc (suc (suc (suc (suc (suc n)))))) = none

-- The arguments of the last `Sprintf`: a plain number, or a number, its divisor and its unit.
pub data Formatted : Type 0 where
  plain : ℕ → Formatted
  scaled : (bytes div letter : ℕ) → Formatted

-- for n := bytes / unit; n >= unit; n /= unit { div *= unit; exp++ }, on fuel
scale : ℕ → ℕ → ℕ → ℕ → Option (ℕ × ℕ)
scale zero n div exp = none
scale (suc fuel) n div exp =
    let rest = scale fuel (n / 1024) (div * 1024) (suc exp) in
    if leb 1024 n then rest else some (div, exp)

abbrev with_letter : ℕ → ℕ → Option ℕ → Option Formatted
with_letter bytes div none = none
with_letter bytes div (some letter) = some (scaled bytes div letter)

abbrev label : ℕ → Option (ℕ × ℕ) → Option Formatted
label bytes none = none
label bytes (some (div, exp)) = with_letter bytes div (unit_letter exp)

-- formatBytes; the fuel is enough for every int64
unfoldable pub format_bytes : ℕ → Option Formatted
unfolding scale
format_bytes bytes =
    if ltb bytes 1024 then some (plain bytes) else label bytes (scale 7 (bytes / 1024) 1024 0)

-- What a violation expects and finds.
pub data Amount : Type 0 where
  size : Option Formatted → Amount
  time : ℕ → Amount

pub data CheckError : Type 0 where
  violation : (budget : String) (expected actual : Amount) → CheckError
  unknown_percentile : String → CheckError
  unreadable : String → CheckError
  uncompressed : String → CheckError

-- CheckBinarySize; the argument is what `os.Stat` says of the path
unfoldable pub check_binary_size : String → Option ℕ → Option CheckError
check_binary_size path none = some (unreadable path)
check_binary_size path (some n) =
    if ltb max_binary_size n
    then some
        (violation "Binary Size" (size (format_bytes max_binary_size)) (size (format_bytes n)))
    else none

-- CheckMemoryUsage, of the allocated bytes
unfoldable pub check_memory_usage : ℕ → Option CheckError
check_memory_usage alloc =
    if ltb max_memory_usage alloc
    then some (
        violation "Memory Usage" (size (format_bytes max_memory_usage)) (size (format_bytes alloc)))
    else none

-- CheckStartupTime
unfoldable pub check_startup_time : ℕ → Option CheckError
check_startup_time duration =
    if ltb max_startup_time duration
    then some (violation "Startup Time" (time max_startup_time) (time duration))
    else none

-- the comparison at the end of CheckResponseTime
abbrev response_verdict : String → ℕ → ℕ → Option CheckError
response_verdict name budget duration =
    if ltb budget duration then some (violation name (time budget) (time duration)) else none

-- CheckResponseTime
unfoldable pub check_response_time : ℕ → String → Option CheckError
check_response_time duration percentile =
    if str_eq percentile "p50"
    then response_verdict "P50 Response Time" max_p50_response_time duration
    else if str_eq percentile "p95"
    then response_verdict "P95 Response Time" max_p95_response_time duration
    else if str_eq percentile "p99"
    then response_verdict "P99 Response Time" max_p99_response_time duration
    else some (unknown_percentile percentile)

pub data Total : Type 0 where
  total : ℕ → Total
  failed : CheckError → Total

-- What `os.ReadFile` returns for a path, and the length of the gzip writer's output for its bytes;
-- `none` is an error.
module _ (read_file : String → Option (List ℕ)) (gzip_length : List ℕ → Option ℕ) where
  -- the body of the loop of GzippedTotal
  abbrev gzipped_size : String → Option (List ℕ) → Total
  gzipped_size path none = failed (unreadable path)
  gzipped_size path (some bytes) = elim (gzip_length bytes) [
    | none ↦ failed (uncompressed path)
    | some n ↦ total n
  ]

  abbrev add_size : ℕ → Total → (ℕ → Total) → Total
  add_size sum (failed e) rest = failed e
  add_size sum (total n) rest = rest (sum + n)

  -- the loop of GzippedTotal
  unfoldable pub gzipped_from : ℕ → List String → Total
  gzipped_from sum [] = total sum
  gzipped_from sum (path ∷ paths) =
      add_size sum (gzipped_size path (read_file path)) (λ t. gzipped_from t paths)

  -- GzippedTotal
  unfoldable pub gzipped_total : List String → Total
  unfolding gzipped_from
  gzipped_total paths = gzipped_from 0 paths

  abbrev asset_verdict : String → ℕ → Total → Option CheckError
  asset_verdict name budget (failed e) = some e
  asset_verdict name budget (total n) =
      if ltb budget n
      then some (violation name (size (format_bytes budget)) (size (format_bytes n)))
      else none

  -- CheckGzippedAssetSize
  unfoldable pub check_gzipped_asset_size : String → ℕ → List String → Option CheckError
  check_gzipped_asset_size name budget paths = asset_verdict name budget (gzipped_total paths)
