-- ===== src/Scripts/CheckVersions/Synced.antt =====
-- What the check says of a manifest that was just written.
pub mod Found
use go_performance_starter.Prelude.{
  ◌≡◌, refl, sym, ◌∙◌, ap, Bool, true, false, not, ◌||◌, Option, none, some, List, [], ◌∷◌, ◌++◌,
  arith, append-nil, Bool-cases, inl, inr, if◌then◌else◌,
}
use go_performance_starter.Prelude.Text.{Text, codes, text_eq, text_eq_iff, text_eq_refl}
use go_performance_starter.Http.{is_empty}
use go_performance_starter.Scripts.CheckVersions.{
  Entries, find, read, is_some, keys_of, entries_of, template_key, sort_strings, synced_value,
  added_keys, sync_manifest, Mismatch, bad_template, no_source, drifted, not_wired,
  wired_mismatches, unwired_keys, template_mismatch, check_manifest,
}
use go_performance_starter.Scripts.CheckVersions.Synced.Found.{
  has, has-sort_strings, added_keys_wired, keys_of-entries_of, keys_of_append, read_synced_template,
  read_synced_wired,
}

-- The entries are those of a map that has no key "template", as expectedVersions gives it: a walk over
-- `walked` finds each of them in `expected`.
abbrev pub IsPart : Entries → Entries → Type 0
IsPart expected [] = Unit
IsPart expected ((key, want) ∷ walked) =
    (find key expected ≡ some want) × (text_eq key template_key ≡ false) × IsPart expected walked

-- The reports but for those of a pin that differs.
abbrev pub without_drift : List Mismatch → List Mismatch
without_drift [] = []
without_drift (bad_template ∷ found) = bad_template ∷ without_drift found
without_drift (no_source key ∷ found) = no_source key ∷ without_drift found
without_drift (drifted key got want ∷ found) = without_drift found
without_drift (not_wired key ∷ found) = not_wired key ∷ without_drift found

without_drift_append :
    (xs ys : List Mismatch) → without_drift (xs ++ ys) ≡ without_drift xs ++ without_drift ys
without_drift_append [] ys = refl
without_drift_append (bad_template ∷ xs) ys =
    ap (λ r. bad_template ∷ r) (without_drift_append xs ys)
without_drift_append (no_source key ∷ xs) ys =
    ap (λ r. no_source key ∷ r) (without_drift_append xs ys)
without_drift_append (drifted key got want ∷ xs) ys = without_drift_append xs ys
without_drift_append (not_wired key ∷ xs) ys =
    ap (λ r. not_wired key ∷ r) (without_drift_append xs ys)

wired_synced :
    (m e walked : Entries)
    → IsPart e walked
    → wired_mismatches (sync_manifest m e) walked ≡ without_drift (wired_mismatches m walked)
unfolding wired_mismatches
wired_synced m e [] part = refl
wired_synced m e ((key, want) ∷ walked) (found, no_template, part) =
    let rest = wired_synced m e walked part in
    elim (Bool-cases (is_empty want)) [
      | inl empty ↦ rw empty (ap (λ r. no_source key ∷ r) rest)
      | inr full ↦
          let synced = read_synced_wired m e key want found no_template full in
          elim (Bool-cases (text_eq (read key m) want)) [
            | inl same ↦ rw (full, synced, text_eq_refl want, same) rest
            | inr other ↦ rw (full, synced, text_eq_refl want, other) rest
          ]
    ]

unwired_keys_append :
    (e : Entries) (xs ys : List Text)
    → unwired_keys e (xs ++ ys) ≡ unwired_keys e xs ++ unwired_keys e ys
unfolding unwired_keys
unwired_keys_append e [] ys = refl
unwired_keys_append e (key ∷ xs) ys =
    elim (Bool-cases (text_eq key template_key || is_some (find key e))) [
      | inl known ↦ rw known (unwired_keys_append e xs ys)
      | inr unknown ↦ rw unknown (ap (λ r. not_wired key ∷ r) (unwired_keys_append e xs ys))
    ]

unwired_keys_none :
    (e : Entries) (ks : List Text)
    → ((key : Text) → has key ks ≡ true → is_some (find key e) ≡ true)
    → unwired_keys e ks ≡ []
unfolding unwired_keys
unwired_keys_none e [] wired = refl
unwired_keys_none e (key ∷ ks) wired =
    let first : is_some (find key e) ≡ true = wired key (ground (arith, text_eq_refl key)) in
    let known : (text_eq key template_key || is_some (find key e)) ≡ true = ground (arith, first) in
    rw known (unwired_keys_none e ks (λ k h. wired k (ground (arith, h))))

unwired_keys_keeps :
    (e : Entries) (ks : List Text) → without_drift (unwired_keys e ks) ≡ unwired_keys e ks
unfolding unwired_keys
unwired_keys_keeps e [] = refl
unwired_keys_keeps e (key ∷ ks) =
    elim (Bool-cases (text_eq key template_key || is_some (find key e))) [
      | inl known ↦ rw known (unwired_keys_keeps e ks)
      | inr unknown ↦ rw unknown (ap (λ r. not_wired key ∷ r) (unwired_keys_keeps e ks))
    ]

-- The keys that are added are wired.
unwired_keys_synced :
    (m e : Entries) → unwired_keys e (keys_of (sync_manifest m e)) ≡ unwired_keys e (keys_of m)
unfolding sync_manifest
unwired_keys_synced m e =
    let added = sort_strings (added_keys m e) in
    let keys : keys_of (sync_manifest m e) ≡ keys_of m ++ added =
      keys_of_append (entries_of (synced_value m e) (keys_of m)) _
      ∙ rw
          (
            keys_of-entries_of (synced_value m e) (keys_of m),
            keys_of-entries_of (λ k. read k e) added,
          )
          refl in
    let wired : unwired_keys e added ≡ [] =
      unwired_keys_none e added
        (λ key h. added_keys_wired m e key (sym (has-sort_strings key (added_keys m e)) ∙ h)) in
    ap (unwired_keys e) keys
    ∙ unwired_keys_append e (keys_of m) added
    ∙ ap (λ r. unwired_keys e (keys_of m) ++ r) wired
    ∙ append-nil (unwired_keys e (keys_of m))

module _ (is_version_tag : Text → Bool) where
  template_keeps :
      (tag : Text)
      → without_drift (template_mismatch is_version_tag tag) ≡ template_mismatch is_version_tag tag
  template_keeps tag = elim (Bool-cases (is_version_tag tag)) [
    | inl good ↦ rw good refl
    | inr bad ↦ rw bad refl
  ]

  -- The check of the manifest that is written reports exactly what the check of the old one does, but
  -- for the pins that differ: none of those is left. So a template that is no tag, a key without a
  -- pin and a key that is not wired stay reported, and nothing is hidden or new. The pins are those
  -- of a map without the key "template".
  pub sync_manifest-check_manifest :
      (m e : Entries)
      → IsPart e e
      → check_manifest is_version_tag (sync_manifest m e) e
        ≡ without_drift (check_manifest is_version_tag m e)
  unfolding check_manifest
  sync_manifest-check_manifest m e part =
      let template = template_mismatch is_version_tag (read template_key m) in
      let drift = wired_mismatches m e in
      let unknown = unwired_keys e (keys_of m) in
      rw
        (
          read_synced_template m e,
          wired_synced m e e part,
          unwired_keys_synced m e,
          without_drift_append (template ++ drift) unknown,
          without_drift_append template drift,
          template_keeps (read template_key m),
          unwired_keys_keeps e (keys_of m),
        )
        refl
