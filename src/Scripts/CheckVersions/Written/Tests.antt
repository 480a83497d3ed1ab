-- ===== src/Scripts/CheckVersions/Written/Tests.antt =====
-- Runs of checkversions.
use go_performance_starter.Prelude.{◌≡◌, refl, some, none, [], ◌∷◌, ◌++◌, Bool}
use go_performance_starter.Prelude.Text.{
  Text, codes, text_eq, has_prefix, is_space, trim_space, split_on,
}
use go_performance_starter.Prelude.Search.{contains, trim_prefix}
use go_performance_starter.Scripts.CheckVersions.{
  Entries, text_less, sink, sort_strings, change_of, synced_value, added_keys, sync_manifest,
  changes_of, bad_template, not_wired, no_source, wired_mismatches, unwired_keys, check_manifest,
}
use go_performance_starter.Scripts.CheckVersions.Pins.{
  fields, go_mod_line, go_mod_versions, agree_from, all_matches_agree, Sources, expected_versions,
  expected_of,
}
use go_performance_starter.Scripts.CheckVersions.Written.{checkversions_written}
use go_performance_starter.Scripts.CheckVersions.Synced.{without_drift}

abbrev line : Text → Text
line s = s ++ 10 ∷ []

abbrev go_mod : Text
go_mod =
    line (codes "go 1.27")
    ++ line (codes "toolchain go1.27.1")
    ++ line (codes "require (")
    ++ line (codes "  github.com/go-chi/chi/v5 v5.2.1")
    ++ line (codes "  github.com/x/y v1 // indirect")
    ++ line (codes ")")
    ++ line (codes "a b")

abbrev sources : Sources
sources = record {
  go_mod = some go_mod;
  tailwind = some (codes "3");
  htmx = some (codes "2");
  alpine = some (codes "3");
  sqlc = some (codes "1");
  migrate = some (codes "4");
  node = some (codes "20");
  golangci_lint = some (codes "2");
}

abbrev manifest : Entries
manifest = (codes "template", codes "v1") ∷ (codes "go", codes "1") ∷ (codes "zig", codes "0") ∷ []

abbrev is_tag : Text → Bool
is_tag s = text_eq s (codes "v1.0.0")

all_of_it : Unit {0}
unfolding text_less sink sort_strings change_of synced_value added_keys sync_manifest changes_of
    wired_mismatches unwired_keys check_manifest fields go_mod_line go_mod_versions agree_from
    all_matches_agree expected_versions text_eq has_prefix is_space trim_space split_on contains
    trim_prefix
all_of_it = tt

go_mod_tests :
    go_mod_versions go_mod
    ≡ (codes "github.com/go-chi/chi/v5", codes "5.2.1")
      ∷ (codes "toolchain", codes "1.27.1")
      ∷ (codes "go", codes "1.27")
      ∷ []
unfolding all_of_it
go_mod_tests = refl

sort_tests :
    sort_strings (codes "b" ∷ codes "ab" ∷ codes "a" ∷ []) ≡ codes "a" ∷ codes "ab" ∷ codes "b" ∷ []
unfolding all_of_it
sort_tests = refl

abbrev pins : Entries
pins =
    (codes "node", codes "20")
    ∷ (codes "go", codes "1.27")
    ∷ (codes "chi", [])
    ∷ (codes "air", codes "5")
    ∷ []

sync_tests :
    (sync_manifest manifest pins
      ≡ (codes "template", codes "v1")
        ∷ (codes "go", codes "1.27")
        ∷ (codes "zig", codes "0")
        ∷ (codes "air", codes "5")
        ∷ (codes "node", codes "20")
        ∷ [])
    × (changes_of manifest pins ≡ codes "go" ∷ codes "air" ∷ codes "node" ∷ [])
unfolding all_of_it
sync_tests = (refl, refl)

-- What is written is still refused: a key without a pin, a key that is not wired, the template.
check_tests :
    check_manifest is_tag (sync_manifest manifest pins) pins
    ≡ bad_template ∷ no_source (codes "chi") ∷ not_wired (codes "zig") ∷ []
unfolding all_of_it
check_tests = refl

agree_tests :
    (all_matches_agree (λ f. some f) (codes "1" ∷ codes "1" ∷ []) ≡ some (codes "1"))
    × (all_matches_agree (λ f. some f) (codes "1" ∷ codes "2" ∷ []) ≡ none)
unfolding all_of_it
agree_tests = (refl, refl)

abbrev found_pins : Entries
found_pins =
    expected_of (go_mod_versions go_mod) (codes "3") (codes "2") (codes "3") (codes "1") (codes "4")
      (codes "20") (codes "2")

checkversions_written_example :
    (check_manifest is_tag (sync_manifest manifest found_pins) found_pins
      ≡ without_drift (check_manifest is_tag manifest found_pins))
    × (changes_of (sync_manifest manifest found_pins) found_pins ≡ [])
unfolding expected_versions
checkversions_written_example = checkversions_written is_tag sources manifest found_pins refl
