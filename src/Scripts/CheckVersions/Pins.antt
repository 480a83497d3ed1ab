-- ===== src/Scripts/CheckVersions/Pins.antt =====
-- scripts/checkversions/main.go, where the pins are read: go.mod and the files of a pin. Files and
-- regular expressions are parameters.
use go_performance_starter.Prelude.{
  Bool, true, false, not, ◌&&◌, Option, none, some, List, [], ◌∷◌, if◌then◌else◌,
}
use go_performance_starter.Prelude.Text.{
  Text, codes, text_eq, has_prefix, is_space, trim_space, split_on,
}
use go_performance_starter.Prelude.Search.{contains, trim_prefix}
use go_performance_starter.Http.{is_empty}
use go_performance_starter.Scripts.CheckVersions.{Entries, read}

abbrev flush : Text → List Text → List Text
flush [] words = words
flush (c ∷ word) words = (c ∷ word) ∷ words

-- The word that a text begins with, and the fields after it.
abbrev words : Text → Text × List Text
words [] = ([], [])
words (c ∷ s) =
    let (word, rest) = words s in if is_space c then ([], flush word rest) else (c ∷ word, rest)

-- strings.Fields
unfoldable pub fields : Text → List Text
unfolding is_space
fields s = let (word, rest) = words s in flush word rest

abbrev require_line : List Text → Entries → Entries
require_line [] out = out
require_line (path ∷ []) out = out
require_line (path ∷ version ∷ rest) out = (path, trim_prefix version (codes "v")) ∷ out

-- One line of goModVersions, trimmed: whether a block of requirements is open, and what was found, the
-- latest first.
unfoldable pub go_mod_line : Text → Bool × Entries → Bool × Entries
unfolding has_prefix text_eq contains fields
go_mod_line line (in_block, out) =
    if has_prefix line (codes "go ")
    then (in_block, (codes "go", trim_prefix line (codes "go ")) ∷ out)
    else if has_prefix line (codes "toolchain go")
    then (in_block, (codes "toolchain", trim_prefix line (codes "toolchain go")) ∷ out)
    else if has_prefix line (codes "require (")
    then (true, out)
    else if in_block && text_eq line (codes ")")
    then (false, out)
    else if in_block && not (is_empty line) && not (contains line (codes "// indirect"))
    then (in_block, require_line (fields line) out)
    else (in_block, out)

abbrev go_mod_lines : List Text → Bool × Entries → Bool × Entries
go_mod_lines [] found = found
go_mod_lines (line ∷ lines) found = go_mod_lines lines (go_mod_line (trim_space line) found)

-- goModVersions
unfoldable pub go_mod_versions : Text → Entries
unfolding split_on trim_space go_mod_line
go_mod_versions content = (go_mod_lines (split_on 10 content) (false, [])).1

-- firstMatch of a regular expression is a parameter: `none` is a file that cannot be read or has no match.
module _ {File : Type 0} (first_match : File → Option Text) where
  unfoldable pub agree_from : (value : Text) → List File → Option Text
  unfolding text_eq
  agree_from value [] = some value
  agree_from value (path ∷ paths) = elim (first_match path) [
    | none ↦ none
    | some v ↦
        let rest = agree_from v paths in
        if not (is_empty value) && not (text_eq v value) then none else rest
  ]

  -- allMatchesAgree
  unfoldable pub all_matches_agree : List File → Option Text
  unfolding agree_from
  all_matches_agree paths = agree_from [] paths

abbrev pub with_pin : Option Text → (Text → Option Entries) → Option Entries
with_pin none rest = none
with_pin (some v) rest = rest v

-- What is read: go.mod, and each of the other pins.
pub record Sources : Type 0 where
  pub go_mod : Option Text
  pub tailwind : Option Text
  pub htmx : Option Text
  pub alpine : Option Text
  pub sqlc : Option Text
  pub migrate : Option Text
  pub node : Option Text
  pub golangci_lint : Option Text

-- expectedVersions, after the reads: the map
abbrev pub expected_of :
    (mod_versions : Entries) (tailwind htmx alpine sqlc migrate node golangci_lint : Text) → Entries
expected_of mod_versions tailwind htmx alpine sqlc migrate node golangci_lint =
    (codes "go", read (codes "toolchain") mod_versions)
    ∷ (codes "go-minimum", read (codes "go") mod_versions)
    ∷ (codes "chi", read (codes "github.com/go-chi/chi/v5") mod_versions)
    ∷ (codes "templ", read (codes "github.com/a-h/templ") mod_versions)
    ∷ (codes "pgx", read (codes "github.com/jackc/pgx/v5") mod_versions)
    ∷ (codes "gotrue-go", read (codes "github.com/supabase-community/gotrue-go") mod_versions)
    ∷ (codes "supabase-go", read (codes "github.com/supabase-community/supabase-go") mod_versions)
    ∷ (codes "htmx", htmx)
    ∷ (codes "alpine", alpine)
    ∷ (codes "tailwindcss", tailwind)
    ∷ (codes "sqlc", sqlc)
    ∷ (codes "golang-migrate", migrate)
    ∷ (codes "node", node)
    ∷ (codes "golangci-lint", golangci_lint)
    ∷ []

-- expectedVersions
unfoldable pub expected_versions : Sources → Option Entries
unfolding go_mod_versions text_eq
expected_versions s = with_pin s.go_mod (λ content. with_pin s.tailwind (λ tailwind.
    with_pin s.htmx (λ htmx. with_pin s.alpine (λ alpine. with_pin s.sqlc (λ sqlc.
      with_pin s.migrate (λ migrate. with_pin s.node (λ node.
        with_pin s.golangci_lint (λ golangci_lint. some (
          expected_of (go_mod_versions content) tailwind htmx alpine sqlc migrate node
            golangci_lint)))))))))
