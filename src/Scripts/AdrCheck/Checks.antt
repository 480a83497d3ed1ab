-- ===== src/Scripts/AdrCheck/Checks.antt =====
-- The checks of scripts/adrcheck/main.go on files and directories. A map is the list of its keys, in
-- the order of their first insertion, where Go walks it in any order.
pub mod Pairs
use go_performance_starter.Prelude.{
  ℕ, zero, suc, ◌+◌, ◌/◌, ◌%◌, Bool, true, false, ◌&&◌, ◌||◌, not, List, [], ◌∷◌, ◌++◌, Option,
  none, some, if◌then◌else◌, ltb, leb, ◌==◌,
}
use go_performance_starter.Prelude.Text.{Text, codes, text_eq, has_prefix}
use go_performance_starter.Prelude.Search.{contains, has_suffix, trim_suffix}
use go_performance_starter.Prelude.Pattern.{
  Pattern, empty, one, many, times, folded, exactly, both, either, edge, in_turn, one_of, some_of,
  maybe, is_blank, is_digit, is_inline, find, matches, rests, some_place,
}
use go_performance_starter.Scripts.AdrCheck.{
  Node, file, Entries, nil, entry, Met, walk_dir, walk_go_files, read_file, read_dir, descend,
  is_there, skip_dirs, skip_nothing, one_of_names,
}
use go_performance_starter.Scripts.AdrCheck.Comments.{
  Span, strip_go_comments, strip_templ_comments, line_of,
}
use go_performance_starter.Scripts.AdrCheck.Messages.{
  Parsers, decimal, located, quoted, report, each,
}

-- The names of a directory that end in `suffix`, without it: the keys of `ups` or `downs`.
unfoldable pub bases : Text → Entries → List Text
unfolding has_suffix trim_suffix
bases suffix nil = []
bases suffix (entry name node rest) =
    let others = bases suffix rest in
    if has_suffix name suffix then trim_suffix name suffix ∷ others else others

unfoldable pub unpaired : Entries → List Text
unfolding has_suffix
unpaired nil = []
unpaired (entry name node rest) =
    let others = unpaired rest in
    if has_suffix name (codes ".up.sql") || has_suffix name (codes ".down.sql")
    then others
    else (codes "migrations/" ++ name ++ codes ": not a paired raw-SQL migration file") ∷ others

-- for base := range these { if !those[base] { … } }
unfoldable pub missing : (Text → Text) → List Text → List Text → List Text
unfolding one_of_names
missing message [] those = []
missing message (base ∷ these) those =
    let others = missing message these those in
    if one_of_names those base then others else message base ∷ others

abbrev pub no_down : Text → Text
no_down base = codes "migrations/" ++ base ++ codes ".up.sql has no matching .down.sql"

abbrev pub no_up : Text → Text
no_up base = codes "migrations/" ++ base ++ codes ".down.sql has no matching .up.sql"

unfoldable pub migration_violations : Option Entries → List Text
unfolding bases unpaired missing
migration_violations none = codes "migrations/ directory not readable" ∷ []
migration_violations (some entries) =
    let ups = bases (codes ".up.sql") entries in
    let downs = bases (codes ".down.sql") entries in
    unpaired entries ++ missing no_down ups downs ++ missing no_up downs ups

unfoldable pub check_migration_pairs : Node → List Text
unfolding migration_violations read_dir
check_migration_pairs root = migration_violations (read_dir root (codes "migrations" ∷ []))

abbrev banned_in : Text → List Text → Text → List Text
banned_in kind names banned =
    if one_of_names names banned
    then (codes "package.json: "
        ++ kind
        ++ codes " "
        ++ quoted banned
        ++ codes " is a heavy client framework")
      ∷ []
    else []

unfoldable pub heavy : List Text → List Text → List Text → List Text
unfolding one_of_names
heavy deps dev_deps [] = []
heavy deps dev_deps (banned ∷ rest) =
    banned_in (codes "dependency") deps banned
    ++ banned_in (codes "devDependency") dev_deps banned
    ++ heavy deps dev_deps rest

abbrev heavy_frameworks : List Text
heavy_frameworks =
    codes "react"
    ∷ codes "react-dom"
    ∷ codes "vue"
    ∷ codes "svelte"
    ∷ codes "angular"
    ∷ codes "@angular/core"
    ∷ codes "jquery"
    ∷ codes "next"
    ∷ codes "nuxt"
    ∷ codes "preact"
    ∷ codes "solid-js"
    ∷ []

unfoldable package_violations : Option (List Text × List Text) → List Text
unfolding heavy
package_violations none = codes "package.json: unparseable" ∷ []
package_violations (some (deps, dev_deps)) = heavy deps dev_deps heavy_frameworks

unfoldable manifest_violations : Parsers → Option Text → List Text
unfolding package_violations
manifest_violations parsers none = []
manifest_violations parsers (some data') = package_violations (parsers.dependencies data')

unfoldable pub check_no_heavy_frameworks : Parsers → Node → List Text
unfolding manifest_violations read_file
check_no_heavy_frameworks parsers root =
    manifest_violations parsers (read_file root (codes "package.json" ∷ []))

abbrev is_hash : ℕ → Bool
is_hash c = c == b'#'

abbrev blanks : Pattern
blanks = some_of is_blank

abbrev fly_at : Text → List Text
fly_at rel =
    if text_eq rel (codes "fly.toml")
    then []
    else (rel ++ codes ": deployment config outside the single root fly.toml") ∷ []

unfoldable deployments : List Met → List Text
unfolding text_eq has_suffix
deployments [] = []
deployments (m ∷ met) =
    (if text_eq m.name (codes "fly.toml")
      then fly_at m.path
      else if has_suffix m.name (codes ".tf")
      then (m.path ++ codes ": Terraform is out of template scope") ∷ []
      else [])
    ++ deployments met

-- rootFly
unfoldable root_fly : List Met → Bool
unfolding text_eq
root_fly [] = false
root_fly (m ∷ met) =
    text_eq m.name (codes "fly.toml") && text_eq m.path (codes "fly.toml") || root_fly met

unfoldable pub check_deploy_scope : Node → List Text
unfolding deployments root_fly walk_dir
check_deploy_scope root =
    let met = walk_dir skip_dirs root [] in
    deployments met
    ++ (if root_fly met
        then []
        else codes
            "fly.toml missing at repo root (ADR-025 permits exactly one, as the worked example)"
          ∷ [])

abbrev demand : Text → Text → Text → Option Text → List Text
demand unreadable lacking what none = unreadable ∷ []
demand unreadable lacking what (some content) = if contains content what then [] else lacking ∷ []

unfoldable pub check_ci_invokes_gate : Node → List Text
unfolding contains read_file
check_ci_invokes_gate root =
    demand (codes ".github/workflows/ci.yml not readable")
      (codes ".github/workflows/ci.yml does not invoke `task ci`") (codes "task ci")
      (read_file root (codes ".github" ∷ codes "workflows" ∷ codes "ci.yml" ∷ []))

unfoldable pub check_csp_build_vendored : Node → List Text
unfolding contains read_file
check_csp_build_vendored root =
    let rel = codes "web/static/js/alpine.min.js" in
    demand (rel ++ codes ": not readable")
      (rel ++ codes ": is not the @alpinejs/csp build (no \"CSP Parser Error\" marker)")
      (codes "CSP Parser Error")
      (read_file root (codes "web" ∷ codes "static" ∷ codes "js" ∷ codes "alpine.min.js" ∷ []))

-- [A-Za-z0-9-]
abbrev pub is_title : ℕ → Bool
is_title c = leb 48 c && leb c 57 || leb 65 c && leb c 90 || leb 97 c && leb c 122 || c == b'-'

-- adrNameRe, without its anchors
abbrev pub adr_name_re : Pattern
adr_name_re = in_turn (
    exactly (codes "ADR-")
    ∷ times 3 is_digit
    ∷ exactly (codes "-")
    ∷ some_of is_title
    ∷ exactly (codes ".md")
    ∷ [])

abbrev any_ended : List (ℕ × Text) → Bool
any_ended [] = false
any_ended ((before, []) ∷ places) = true
any_ended ((before, c ∷ s) ∷ places) = any_ended places

-- adrNameRe.MatchString: a match from the first character to the last
unfoldable pub is_adr_name : Text → Bool
unfolding rests
is_adr_name name = any_ended (rests adr_name_re 0 name)

-- adrStatusRe from the start of a line
abbrev status_re : Pattern
status_re =
    both (maybe (in_turn (many is_blank ∷ one (λ c. c == b'*' || c == b'-') ∷ many is_blank ∷ [])))
      (one_of
        (in_turn (
          one is_hash
          ∷ maybe (one is_hash)
          ∷ maybe (one is_hash)
          ∷ maybe (one is_hash)
          ∷ blanks
          ∷ folded (codes "status")
          ∷ edge
          ∷ []))
        (in_turn (
            exactly (codes "**")
            ∷ folded (codes "status")
            ∷ maybe (exactly (codes ":"))
            ∷ exactly (codes "**")
            ∷ [])
          ∷ []))

-- A match at the start of the text or behind a newline: (?m)^
unfoldable starts_a_line : Pattern → Bool → Text → Bool
unfolding rests
starts_a_line re at_start [] = at_start && some_place (rests re 0 [])
starts_a_line re at_start (c ∷ s) =
    let later = starts_a_line re (c == b'\n') s in
    at_start && some_place (rests re 0 (c ∷ s)) || later

unfoldable has_status : Option Text → Bool
unfolding starts_a_line
has_status none = false
has_status (some content) = starts_a_line status_re true content

abbrev content : Node → Option Text
content (file c) = c
content other = none

unfoldable pub metadata_violations : Entries → List Text
unfolding has_prefix has_suffix is_adr_name has_status
metadata_violations nil = []
metadata_violations (entry name node rest) =
    let others = metadata_violations rest in
    if not (has_prefix name (codes "ADR-")) || not (has_suffix name (codes ".md"))
    then others
    else if not (is_adr_name name)
    then (codes "docs/adr/" ++ name ++ codes ": does not match ADR-NNN-Title.md") ∷ others
    else if has_status (content node)
    then others
    else (codes "docs/adr/" ++ name ++ codes ": no Status marker found") ∷ others

unfoldable listed_metadata : Option Entries → List Text
unfolding metadata_violations
listed_metadata none = codes "docs/adr/ not readable" ∷ []
listed_metadata (some entries) = metadata_violations entries

unfoldable pub check_adr_metadata : Node → List Text
unfolding listed_metadata read_dir
check_adr_metadata root = listed_metadata (read_dir root (codes "docs" ∷ codes "adr" ∷ []))
