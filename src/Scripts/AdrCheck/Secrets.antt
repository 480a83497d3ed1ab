-- ===== src/Scripts/AdrCheck/Secrets.antt =====
-- The secret scanner of scripts/adrcheck/main.go: its patterns, the files it reads, and what it
-- reports of a file.
pub mod Lines
use go_performance_starter.Prelude.{
  ℕ, ◌+◌, Bool, true, false, ◌&&◌, ◌||◌, not, List, [], ◌∷◌, ◌++◌, Option, none, some,
  if◌then◌else◌, leb, ◌==◌,
}
use go_performance_starter.Prelude.Text.{Text, codes, text_eq, split_on}
use go_performance_starter.Prelude.Search.{has_suffix}
use go_performance_starter.Prelude.Pattern.{
  Pattern, one, many, times, folded, exactly, both, either, edge, in_turn, one_of, some_of, maybe,
  is_word, is_blank, not_one_of, find, matches, rests, Place,
}
use go_performance_starter.Scripts.AdrCheck.{
  Node, Met, walk_dir, skip_dirs, one_of_names, read_file, descend, is_there,
}
use go_performance_starter.Scripts.AdrCheck.Messages.{located}

abbrev is_upper : ℕ → Bool
is_upper c = leb 65 c && leb c 90

abbrev is_lower : ℕ → Bool
is_lower c = leb 97 c && leb c 122

abbrev is_number : ℕ → Bool
is_number c = leb 48 c && leb c 57

abbrev is_alnum : ℕ → Bool
is_alnum c = is_upper c || is_lower c || is_number c

-- [A-Za-z0-9_-]
abbrev is_base64url : ℕ → Bool
is_base64url c = is_alnum c || c == b'_' || c == b'-'

-- `{n,}`
abbrev at_least : ℕ → (ℕ → Bool) → Pattern
at_least n p = both (times n p) (many p)

abbrev any_one_of : Text → Pattern
any_one_of t = one (λ c. not (not_one_of t c))

abbrev aws_re : Pattern
aws_re =
    in_turn (edge ∷ exactly (codes "AKIA") ∷ times 16 (λ c. is_number c || is_upper c) ∷ edge ∷ [])

abbrev github_re : Pattern
github_re = in_turn (
    edge
    ∷ exactly (codes "gh")
    ∷ any_one_of (codes "pousr")
    ∷ exactly (codes "_")
    ∷ at_least 36 is_alnum
    ∷ edge
    ∷ [])

abbrev github_pat_re : Pattern
github_pat_re = in_turn (edge ∷ exactly (codes "github_pat_") ∷ at_least 22 is_word ∷ edge ∷ [])

abbrev slack_re : Pattern
slack_re = in_turn (
    edge
    ∷ exactly (codes "xox")
    ∷ any_one_of (codes "baprs")
    ∷ exactly (codes "-")
    ∷ at_least 10 (λ c. is_alnum c || c == b'-')
    ∷ [])

abbrev google_re : Pattern
google_re = in_turn (edge ∷ exactly (codes "AIza") ∷ times 35 is_base64url ∷ edge ∷ [])

abbrev stripe_re : Pattern
stripe_re = in_turn (
    edge
    ∷ one_of (exactly (codes "sk")) (exactly (codes "rk") ∷ [])
    ∷ exactly (codes "_")
    ∷ one_of (exactly (codes "live")) (exactly (codes "test") ∷ [])
    ∷ exactly (codes "_")
    ∷ at_least 24 is_alnum
    ∷ edge
    ∷ [])

abbrev private_key_re : Pattern
private_key_re = in_turn (
    exactly (codes "-----BEGIN ")
    ∷ maybe (
        one_of (exactly (codes "RSA ")) (
          exactly (codes "EC ")
          ∷ exactly (codes "DSA ")
          ∷ exactly (codes "OPENSSH ")
          ∷ exactly (codes "PGP ")
          ∷ []))
    ∷ exactly (codes "PRIVATE KEY")
    ∷ maybe (exactly (codes " BLOCK"))
    ∷ exactly (codes "-----")
    ∷ [])

abbrev jwt_re : Pattern
jwt_re = in_turn (
    edge
    ∷ exactly (codes "eyJ")
    ∷ at_least 10 is_base64url
    ∷ exactly (codes ".")
    ∷ at_least 10 is_base64url
    ∷ exactly (codes ".")
    ∷ at_least 10 is_base64url
    ∷ edge
    ∷ [])

-- [a-z_] under (?i)
abbrev is_name_letter : ℕ → Bool
is_name_letter c = is_lower c || is_upper c || c == b'_' || c == 0x17f || c == 0x212a

abbrev is_opaque : ℕ → Bool
is_opaque c = not_one_of (codes "\"'`") c && not (is_blank c)

abbrev a_quote : Pattern
a_quote = any_one_of (codes "\"'`")

-- The named assignment up to the literal's opening quote.
abbrev assignment_re : Pattern
assignment_re = in_turn (
    edge
    ∷ many is_name_letter
    ∷ one_of
        (in_turn
          (folded (codes "api") ∷ maybe (any_one_of (codes "_-")) ∷ folded (codes "key") ∷ []))
        (folded (codes "secret")
          ∷ folded (codes "password")
          ∷ folded (codes "passwd")
          ∷ folded (codes "token")
          ∷ [])
    ∷ many is_name_letter
    ∷ many is_blank
    ∷ any_one_of (codes ":=")
    ∷ many is_blank
    ∷ a_quote
    ∷ [])

-- The literal behind it and its closing quote.
abbrev literal_re : Pattern
literal_re = both (at_least 20 is_opaque) a_quote

abbrev secret_re : Pattern
secret_re = both assignment_re literal_re

-- secretPlaceholderRe
abbrev placeholder_re : Pattern
placeholder_re = one_of (folded (codes "example")) (
    folded (codes "changeme")
    ∷ folded (codes "change-me")
    ∷ folded (codes "placeholder")
    ∷ both (folded (codes "your")) (any_one_of (codes "-_"))
    ∷ folded (codes "xxx")
    ∷ folded (codes "dummy")
    ∷ folded (codes "sample")
    ∷ folded (codes "redacted")
    ∷ in_turn (exactly (codes "<") ∷ some_of (λ c. not (c == b'>')) ∷ exactly (codes ">") ∷ [])
    ∷ exactly (codes "{{")
    ∷ exactly (codes "${")
    ∷ both (exactly (codes "$")) (one is_name_letter)
    ∷ folded (codes "op://")
    ∷ [])

pub record Secret : Type 0 where
  pub re : Pattern
  pub what : Text
  pub skip_tests : Bool

abbrev vendor : Pattern → Text → Secret
vendor re what = record { re = re; what = what; skip_tests = false }

-- secretPatterns
abbrev pub secret_patterns : List Secret
secret_patterns =
    vendor aws_re (codes "AWS access key id")
    ∷ vendor github_re (codes "GitHub token")
    ∷ vendor github_pat_re (codes "GitHub fine-grained PAT")
    ∷ vendor slack_re (codes "Slack token")
    ∷ vendor google_re (codes "Google API key")
    ∷ vendor stripe_re (codes "Stripe key")
    ∷ vendor private_key_re (codes "private key block")
    ∷ vendor jwt_re (codes "JWT literal")
    ∷ record {
      re = secret_re;
      what = codes "secret-named assignment with an opaque literal";
      skip_tests = true;
    }
    ∷ []

-- The opaque characters in front: the group of the last pattern, from its start.
abbrev span_of : (ℕ → Bool) → Text → Text
span_of p [] = []
span_of p (c ∷ s) = elim (p c) [ true ↦ c ∷ span_of p s | false ↦ [] ]

-- The group at the first of these places behind which the literal follows.
unfoldable group_at : List Place → Option Text
unfolding rests
group_at [] = none
group_at ((before, s) ∷ places) = elim (rests literal_re before s) [
  | [] ↦ group_at places
  | place ∷ more ↦ some (span_of is_opaque s)
]

abbrev first_of : Option Text → Option Text → Option Text
first_of none other = other
first_of (some g) other = some g

-- m[1] of the leftmost match
unfoldable pub group_of : ℕ → Text → Option Text
unfolding group_at rests
group_of before [] = none
group_of before (c ∷ s) =
    let later = group_of c s in first_of (group_at (rests assignment_re before (c ∷ s))) later

unfoldable is_placeholder : Option Text → Bool
unfolding matches
is_placeholder none = false
is_placeholder (some value) = matches placeholder_re value

-- Whether a pattern makes a finding of the line.
unfoldable pub is_hit : Bool → Text → Secret → Bool
unfolding matches group_of is_placeholder
is_hit is_test line p =
    not (p.skip_tests && is_test)
    && matches p.re line
    && not (p.skip_tests && is_placeholder (group_of 0 line))

-- The patterns on one line, up to the first that makes a finding.
unfoldable pub line_findings : Text → Bool → ℕ → Text → List Secret → List Text
unfolding is_hit located
line_findings rel is_test number line [] = []
line_findings rel is_test number line (p ∷ patterns) = elim (is_hit is_test line p) [
  | true ↦ located rel number p.what ∷ []
  | false ↦ line_findings rel is_test number line patterns
]

unfoldable pub lines_findings : Text → Bool → ℕ → List Text → List Text
unfolding line_findings
lines_findings rel is_test number [] = []
lines_findings rel is_test number (line ∷ rest) =
    line_findings rel is_test number line secret_patterns
    ++ lines_findings rel is_test (number + 1) rest

unfoldable pub scan_for_secrets : Text → Text → List Text
unfolding split_on lines_findings has_suffix
scan_for_secrets rel content =
    lines_findings rel (has_suffix rel (codes "_test.go")) 1 (split_on b'\n' content)

abbrev has_dot : Text → Bool
has_dot [] = false
has_dot (c ∷ s) = c == b'.' || has_dot s

-- filepath.Ext of a name
unfoldable pub ext : Text → Text
ext [] = []
ext (c ∷ s) = let later = ext s in if c == b'.' && not (has_dot s) then c ∷ s else later

unfoldable pub is_secret_scan_target : Text → Bool
unfolding text_eq has_suffix ext one_of_names
is_secret_scan_target base =
    if has_suffix base (codes "_templ.go") || has_suffix base (codes ".min.js")
    then false
    else if text_eq base (codes "Dockerfile")
    then true
    else one_of_names
        (codes ".go"
          ∷ codes ".templ"
          ∷ codes ".yml"
          ∷ codes ".yaml"
          ∷ codes ".toml"
          ∷ codes ".sql"
          ∷ codes ".json"
          ∷ codes ".sh"
          ∷ codes ".js"
          ∷ codes ".tpl"
          ∷ codes ".example"
          ∷ [])
        (ext base)

unfoldable pub visit : Met → List Text
unfolding is_secret_scan_target scan_for_secrets
visit m = elim m.content [
  | none ↦ []
  | some content ↦ if is_secret_scan_target m.name then scan_for_secrets m.path content else []
]

unfoldable visit_all : List Met → List Text
unfolding visit
visit_all [] = []
visit_all (m ∷ met) = visit m ++ visit_all met

unfoldable visit_roots : Node → List Text → List Text
unfolding visit_all walk_dir
visit_roots root [] = []
visit_roots root (dir ∷ dirs) =
    visit_all (walk_dir skip_dirs root (dir ∷ [])) ++ visit_roots root dirs

abbrev last_of : Text → List Text → Text
last_of name [] = name
last_of _ (name ∷ names) = last_of name names

abbrev slashed : List Text → Text
slashed [] = []
slashed (name ∷ []) = name
slashed (name ∷ next ∷ names) = name ++ (b'/' ∷ slashed (next ∷ names))

unfoldable visit_files : Node → List (List Text) → List Text
unfolding visit read_file
visit_files root [] = []
visit_files root (names ∷ files) =
    visit (record { path = slashed names; name = last_of [] names; content = read_file root names })
    ++ visit_files root files

abbrev alone : Text → List Text
alone name = name ∷ []

unfoldable pub check_no_hardcoded_secrets : Node → List Text
unfolding visit_roots visit_files
check_no_hardcoded_secrets root =
    visit_roots root (
      codes "cmd"
      ∷ codes "internal"
      ∷ codes "scripts"
      ∷ codes "sql"
      ∷ codes "migrations"
      ∷ codes ".github"
      ∷ [])
    ++ visit_files root (
        alone (codes "Taskfile.yml")
        ∷ alone (codes "fly.toml")
        ∷ alone (codes "Dockerfile")
        ∷ alone (codes "docker-compose.yml")
        ∷ alone (codes ".env.example")
        ∷ alone (codes ".env.tpl")
        ∷ (codes "web" ∷ codes "static" ∷ codes "js" ∷ codes "app.js" ∷ [])
        ∷ [])
