-- ===== src/Scripts/AdrCheck/Messages.antt =====
-- What the checks of scripts/adrcheck/main.go say, and the parsers of Go and JSON, which are a
-- parameter.
use go_performance_starter.Prelude.{
  ℕ, zero, suc, ◌+◌, ◌/◌, ◌%◌, true, false, List, [], ◌∷◌, ◌++◌, Option, none, some, ltb,
}
use go_performance_starter.Prelude.Text.{Text, codes}
use go_performance_starter.Prelude.Pattern.{Pattern, find}
use go_performance_starter.Scripts.AdrCheck.Comments.{Span, line_of}

-- go/scanner, go/parser and encoding/json: the comments of a Go source, its imports with their
-- lines (none where it does not parse), and the dependencies and devDependencies of a package.json.
pub record Parsers : Type 0 where
  pub comments : Text → List Span
  pub imports : Text → List (Text × ℕ)
  pub dependencies : Text → Option (List Text × List Text)

abbrev decimal_from : ℕ → ℕ → Text → Text
decimal_from zero n digits = digits
decimal_from (suc fuel) n digits = elim (ltb n 10) [
  | true ↦ (n + 48) ∷ digits
  | false ↦ decimal_from fuel (n / 10) ((n % 10 + 48) ∷ digits)
]

-- %d
abbrev pub decimal : ℕ → Text
decimal n = decimal_from (suc n) n []

-- "%s:%d: %s"
unfoldable pub located : Text → ℕ → Text → Text
located rel line what = rel ++ codes ":" ++ decimal line ++ codes ": " ++ what

abbrev pub quoted : Text → Text
quoted s = codes "\"" ++ s ++ codes "\""

abbrev at_match : Text → Text → Text → Option ℕ → List Text
at_match rel content what none = []
at_match rel content what (some at) = located rel (line_of content at) what ∷ []

-- if loc := re.FindIndex(code); loc != nil { … lineOf(content, loc[0]) … }
unfoldable pub report : Pattern → Text → Text → Text → Text → List Text
unfolding find located line_of
report re what rel content code = at_match rel content what (find re code)

abbrev pub each : (Text × Text → List Text) → List (Text × Text) → List Text
each check [] = []
each check (source ∷ sources) = check source ++ each check sources
