-- ===== src/Scripts/CheckVersions/Written.antt =====
-- What -write leaves for the check, with the pins that expectedVersions finds.
mod Tests
use go_performance_starter.Prelude.{
  sym, Bool-cases, inl, inr, ◌||◌, refl, List, [], ◌∷◌, ◌++◌, true, false, ap, ◌∙◌, not,
  if◌then◌else◌, ◌≡◌, Bool, Option, none, some, arith, subst,
}
use go_performance_starter.Prelude.Text.{Text, text_eq, text_eq_refl}
use go_performance_starter.Http.{is_empty}
use go_performance_starter.Scripts.CheckVersions.{
  find, read, is_some, or_empty, keys_of, template_key, change_to, change_of, is_added, added_keys,
  changed_keys, changes_of, sort_strings, Entries, sync_manifest, check_manifest,
}
use go_performance_starter.Scripts.CheckVersions.Synced.{
  IsPart, without_drift, sync_manifest-check_manifest,
}
use go_performance_starter.Scripts.CheckVersions.Synced.Found.{read_synced_wired}
use go_performance_starter.Scripts.CheckVersions.Pins.{
  with_pin, Sources, expected_of, go_mod_versions, expected_versions,
}

expected_of-IsPart :
    (mod_versions : Entries) (tailwind htmx alpine sqlc migrate node golangci_lint : Text)
    → let e = expected_of mod_versions tailwind htmx alpine sqlc migrate node golangci_lint in
      IsPart e e
unfolding text_eq
expected_of-IsPart mod_versions tailwind htmx alpine sqlc migrate node golangci_lint = ground arith

-- What holds of each result of the rest holds of the whole.
with_pin_lem :
    (P : Entries → Type 0) (found : Option Text) (rest : Text → Option Entries)
    → ((v : Text) (e : Entries) → rest v ≡ some e → P e)
    → (e : Entries) → with_pin found rest ≡ some e
    → P e
with_pin_lem P none rest holds e gives = absurd (cc gives)
with_pin_lem P (some v) rest holds e gives = holds v e gives

abbrev IsMap : Entries → Type 0
IsMap e = IsPart e e

IsMap-same : (x e : Entries) → IsMap x → ◌≡◌ {A = Option Entries} (some x) (some e) → IsMap e
IsMap-same x e part same = let equal : x ≡ e = cc same in subst IsMap equal part

expected_versions-IsPart : (s : Sources) (e : Entries) → expected_versions s ≡ some e → IsPart e e
unfolding expected_versions
expected_versions-IsPart s = with_pin_lem IsMap s.go_mod _ (λ content.
    with_pin_lem IsMap s.tailwind _ (λ tailwind. with_pin_lem IsMap s.htmx _ (λ htmx.
      with_pin_lem IsMap s.alpine _ (λ alpine. with_pin_lem IsMap s.sqlc _ (λ sqlc.
        with_pin_lem IsMap s.migrate _ (λ migrate. with_pin_lem IsMap s.node _ (λ node.
          with_pin_lem IsMap s.golangci_lint _ (λ golangci_lint e same.
            IsMap-same _ e
              (expected_of-IsPart (go_mod_versions content) tailwind htmx alpine sqlc migrate node
                golangci_lint)
              same))))))))

change_to_synced :
    (m e : Entries) (key : Text) (found : Option Text)
    → find key e ≡ found
    → change_to key (read key (sync_manifest m e)) found ≡ none
change_to_synced m e key none is_found = refl
change_to_synced m e key (some want) is_found =
    elim (Bool-cases (text_eq key template_key || is_empty want)) [
      | inl skipped ↦ rw skipped refl
      | inr wired ↦
          let written =
            read_synced_wired m e key want is_found (ground (arith, wired))
              (ground (arith, wired)) in
          rw (written, text_eq_refl want, wired) refl
    ]

some_lem :
    (found : Option Text) (want : Text)
    → or_empty found ≡ want
    → is_empty want ≡ false
    → is_some found ≡ true
some_lem none want same full = absurd (cc (sym full ∙ ap is_empty (sym same)))
some_lem (some v) want same full = refl

added_keys_synced :
    (m e walked : Entries) → IsPart e walked → added_keys (sync_manifest m e) walked ≡ []
unfolding added_keys
added_keys_synced m e [] part = refl
added_keys_synced m e ((key, want) ∷ walked) (found, no_template, part) =
    let rest = added_keys_synced m e walked part in
    elim (Bool-cases (is_empty want)) [
      | inl empty ↦
          let adds : is_added (sync_manifest m e) key want ≡ false = ground (arith, empty) in
          rw adds rest
      | inr full ↦
          let there =
            some_lem (find key (sync_manifest m e)) want
              (read_synced_wired m e key want found no_template full) full in
          let adds : is_added (sync_manifest m e) key want ≡ false = ground (arith, there) in
          rw adds rest
    ]

changed_keys-none :
    (change : Text → Option Text) (keys : List Text)
    → ((key : Text) → change key ≡ none)
    → changed_keys change keys ≡ []
changed_keys-none change [] nothing = refl
changed_keys-none change (key ∷ keys) nothing =
    rw (nothing key, changed_keys) (changed_keys-none change keys nothing)

changes_of_synced : (m e : Entries) → IsPart e e → changes_of (sync_manifest m e) e ≡ []
unfolding changes_of change_of sort_strings
changes_of_synced m e part =
    rw
      (
        changed_keys-none (change_of (sync_manifest m e) e) (keys_of (sync_manifest m e))
            (λ key. change_to_synced m e key (find key e) refl),
        added_keys_synced m e e part,
      )
      refl

-- Where the pins are found, the check of the manifest that is written reports exactly what the check of
-- the old one does, but for the pins that differ: none of those is left. So a template that is no
-- tag, a key without a pin and a key that is not wired stay reported, and nothing else is new. Another
-- run of the writer finds nothing to change.
pub checkversions_written :
    (is_version_tag : Text → Bool) (s : Sources) (m e : Entries)
    → expected_versions s ≡ some e
    → (check_manifest is_version_tag (sync_manifest m e) e
        ≡ without_drift (check_manifest is_version_tag m e))
      × (changes_of (sync_manifest m e) e ≡ [])
checkversions_written is_version_tag s m e found =
    let part = expected_versions-IsPart s e found in
    (sync_manifest-check_manifest is_version_tag m e part, changes_of_synced m e part)
