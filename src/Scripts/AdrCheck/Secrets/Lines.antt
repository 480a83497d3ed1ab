-- ===== src/Scripts/AdrCheck/Secrets/Lines.antt =====
-- What the scanner of secrets cannot miss.
use go_performance_starter.Prelude.{
  ℕ, zero, suc, some-injective, ◌+◌, Bool, true, false, List, [], ◌∷◌, some, ◌≡◌, refl, subst,
  arith, get_elem?, Bool-cases, inl, inr,
}
use go_performance_starter.Prelude.Text.{Text, codes, split_on}
use go_performance_starter.Prelude.Pattern.{matches}
use go_performance_starter.Prelude.Search.{has_suffix}
use go_performance_starter.Scripts.AdrCheck.Walking.{In, here, there, In-left, In-right}
use go_performance_starter.Scripts.AdrCheck.Messages.{located}
use go_performance_starter.Scripts.AdrCheck.Secrets.{
  Secret, secret_patterns, is_hit, line_findings, lines_findings, scan_for_secrets,
}

-- There is a finding for this line.
abbrev pub IsReported : Text → ℕ → List Text → Type 0
IsReported rel number findings = (what : Text) × In (located rel number what) findings

line_findings-IsReported :
    (rel : Text) (is_test : Bool) (number : ℕ) (line : Text) (ps : List Secret) (p : Secret)
    → In p ps
    → is_hit is_test line p ≡ true
    → IsReported rel number (line_findings rel is_test number line ps)
unfolding line_findings
line_findings-IsReported rel is_test number line [] p i hit = elim i [ ]
line_findings-IsReported rel is_test number line (q ∷ ps) _ here hit =
    rw (hit, line_findings) (q.what, here)
line_findings-IsReported rel is_test number line (q ∷ ps) p (there _ later) hit =
    elim (Bool-cases (is_hit is_test line q)) [
      | inl first ↦ rw (first, line_findings) (q.what, here)
      | inr other ↦
          rw (other, line_findings)
            (line_findings-IsReported rel is_test number line ps p later hit)
    ]

lines_findings-IsReported :
    (rel : Text) (is_test : Bool) (number : ℕ) (lines : List Text) (i : ℕ) (line : Text)
    (p : Secret)
    → get_elem? lines i ≡ some line
    → In p secret_patterns
    → is_hit is_test line p ≡ true
    → IsReported rel (number + i) (lines_findings rel is_test number lines)
unfolding lines_findings
lines_findings-IsReported rel is_test number [] i line p at k hit = absurd (ground arith)
lines_findings-IsReported rel is_test number (l ∷ lines) zero line p at k hit =
    let (what, held) =
      line_findings-IsReported rel is_test number l secret_patterns p k
        (rw (some-injective at) hit) in
    (
      what,
      In-left (lines_findings rel is_test (number + 1) lines) (
          subst (λ n. In (located rel n what) (line_findings rel is_test number l secret_patterns))
            {x = number} {y = number + zero} (omega arith) held),
    )
lines_findings-IsReported rel is_test number (l ∷ lines) (suc i) line p at k hit =
    let (what, held) = lines_findings-IsReported rel is_test (number + 1) lines i line p at k hit in
    (
      what,
      In-right (line_findings rel is_test number l secret_patterns) (
          subst (λ n. In (located rel n what) (lines_findings rel is_test (number + 1) lines))
            {x = number + 1 + i} {y = number + suc i} (omega arith) held),
    )

is_hit_vendor :
    (is_test : Bool) (line : Text) (p : Secret)
    → p.skip_tests ≡ false
    → matches p.re line ≡ true
    → is_hit is_test line p ≡ true
unfolding is_hit
is_hit_vendor is_test line p vendor match_of = rw (vendor, match_of) refl

-- A credential of one of the vendors' shapes is reported wherever it stands, in a test as elsewhere
-- and whatever else its line holds: of every line that one of these patterns matches there is a
-- finding with the path and the number of that line, counted from 1.
pub scan_for_secrets-IsReported :
    (rel content : Text) (i : ℕ) (line : Text) (p : Secret)
    → get_elem? (split_on b'\n' content) i ≡ some line
    → In p secret_patterns
    → p.skip_tests ≡ false
    → matches p.re line ≡ true
    → IsReported rel (1 + i) (scan_for_secrets rel content)
unfolding scan_for_secrets
scan_for_secrets-IsReported rel content i line p at k vendor match_of =
    let is_test = has_suffix rel (codes "_test.go") in
    lines_findings-IsReported rel is_test 1 (split_on b'\n' content) i line p at k
      (is_hit_vendor is_test line p vendor match_of)
