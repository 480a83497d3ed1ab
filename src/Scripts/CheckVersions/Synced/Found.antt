-- ===== src/Scripts/CheckVersions/Synced/Found.antt =====
-- What is found in a manifest that was just written.
use go_performance_starter.Prelude.{
  ◌≡◌, refl, sym, ◌∙◌, ap, Bool, true, false, ◌||◌, Option, none, some, List, [], ◌∷◌, ◌++◌, arith,
  Bool-cases, inl, inr, if◌then◌else◌,
}
use go_performance_starter.Prelude.Text.{Text, text_eq, text_eq_iff}
use go_performance_starter.Http.{is_empty}
use go_performance_starter.Scripts.CheckVersions.{
  Entries, find, read, or_empty, is_some, keys_of, entries_of, template_key, sink, back, sort_from,
  sort_strings, change_to, change_of, value_or, synced_value, is_added, added_keys, sync_manifest,
}

abbrev pub has : Text → List Text → Bool
has key [] = false
has key (k ∷ ks) = let rest = has key ks in text_eq k key || rest

has-sink :
    (key x : Text) (before : List Text)
    → has key (sink x before) ≡ (text_eq x key || has key before)
unfolding sink
has-sink key x [] = refl
has-sink key x (y ∷ before) = ground (arith, has-sink key x before)

has-back :
    (key : Text) (before after : List Text)
    → has key (back before after) ≡ (has key before || has key after)
has-back key [] after = refl
has-back key (x ∷ before) after = ground (arith, has-back key before (x ∷ after))

has-sort_from :
    (key : Text) (before xs : List Text)
    → has key (sort_from before xs) ≡ (has key before || has key xs)
has-sort_from key before [] = has-back key before []
has-sort_from key before (x ∷ xs) =
    ground (arith, has-sort_from key (sink x before) xs, has-sink key x before)

pub has-sort_strings : (key : Text) (xs : List Text) → has key (sort_strings xs) ≡ has key xs
unfolding sort_strings
has-sort_strings key xs = has-sort_from key [] xs

has-keys_of : (key : Text) (m : Entries) → has key (keys_of m) ≡ is_some (find key m)
has-keys_of key [] = refl
has-keys_of key ((k, v) ∷ m) = ground (arith, has-keys_of key m)

find-entries_of :
    (f : Text → Text) (key : Text) (ks : List Text)
    → find key (entries_of f ks) ≡ (if has key ks then some (f key) else none)
find-entries_of f key [] = refl
find-entries_of f key (k ∷ ks) = elim (Bool-cases (text_eq k key)) [
  | inl e ↦
      let same : k ≡ key = (text_eq_iff k key).0 e in rw (e, find, has) (ap (λ x. some (f x)) same)
  | inr e ↦ rw (e, find, has) (find-entries_of f key ks)
]

abbrev or_else : Option Text → Option Text → Option Text
or_else none other = other
or_else (some v) other = some v

find_append : (key : Text) (m n : Entries) → find key (m ++ n) ≡ or_else (find key m) (find key n)
find_append key [] n = refl
find_append key ((k, v) ∷ m) n = elim (Bool-cases (text_eq k key)) [
  | inl e ↦ rw (e, find) refl
  | inr e ↦ rw (e, find) (find_append key m n)
]

has-added_keys :
    (m e : Entries) (key want : Text)
    → find key e ≡ some want
    → is_added m key want ≡ true
    → has key (added_keys m e) ≡ true
unfolding added_keys
has-added_keys m [] key want found added = absurd (cc found)
has-added_keys m ((k, w) ∷ e) key want found added = elim (Bool-cases (text_eq k key)) [
  | inl same ↦
      let first : some w ≡ some want = (rw (same, find) at found) in
      let same_want : w ≡ want = cc first in
      let same_key : k ≡ key = (text_eq_iff k key).0 same in
      let adds : is_added m k w ≡ true =
        ap (λ x. is_added m x w) same_key ∙ ap (λ x. is_added m key x) same_want ∙ added in
      ground (arith, adds, same)
  | inr other ↦
      let rest = has-added_keys m e key want (rw (other, find) at found) added in
      ground (arith, rest, other)
]

has-added_keys_template : (m e : Entries) → has template_key (added_keys m e) ≡ false
unfolding added_keys
has-added_keys_template m [] = refl
has-added_keys_template m ((k, w) ∷ e) = ground (arith, has-added_keys_template m e)

pub added_keys_wired :
    (m e : Entries) (key : Text) → has key (added_keys m e) ≡ true → is_some (find key e) ≡ true
unfolding added_keys
added_keys_wired m [] key h = h
added_keys_wired m ((k, w) ∷ e) key h = elim (Bool-cases (text_eq k key)) [
  | inl same ↦ rw (same, find) refl
  | inr other ↦ rw (other, find) (added_keys_wired m e key (ground (arith, h, other)))
]

pub keys_of-entries_of : (f : Text → Text) (ks : List Text) → keys_of (entries_of f ks) ≡ ks
keys_of-entries_of f [] = refl
keys_of-entries_of f (k ∷ ks) = ap (λ rest. k ∷ rest) (keys_of-entries_of f ks)

pub keys_of_append : (m n : Entries) → keys_of (m ++ n) ≡ keys_of m ++ keys_of n
keys_of_append [] n = refl
keys_of_append ((k, v) ∷ m) n = ap (λ rest. k ∷ rest) (keys_of_append m n)

find_synced_old :
    (m e : Entries) (key : Text)
    → is_some (find key m) ≡ true
    → find key (sync_manifest m e) ≡ some (synced_value m e key)
unfolding sync_manifest
find_synced_old m e key there =
    find_append key (entries_of (synced_value m e) (keys_of m)) _
    ∙ rw (find-entries_of (synced_value m e) key (keys_of m), has-keys_of key m, there) refl

find_synced_new :
    (m e : Entries) (key : Text)
    → is_some (find key m) ≡ false
    → find key (sync_manifest m e) ≡ (if has key (added_keys m e) then some (read key e) else none)
unfolding sync_manifest
find_synced_new m e key missing =
    find_append key (entries_of (synced_value m e) (keys_of m)) _
    ∙ rw
        (
          find-entries_of (synced_value m e) key (keys_of m),
          has-keys_of key m,
          missing,
          find-entries_of (λ k. read k e) key (sort_strings (added_keys m e)),
          has-sort_strings key (added_keys m e),
        )
        refl

change_to_template :
    (old : Text) (found : Option Text) → value_or old (change_to template_key old found) ≡ old
unfolding text_eq
change_to_template old none = refl
change_to_template old (some want) = refl

change_to_wired :
    (key old want : Text)
    → text_eq key template_key ≡ false
    → is_empty want ≡ false
    → value_or old (change_to key old (some want)) ≡ want
change_to_wired key old want no_template some_want = elim (Bool-cases (text_eq want old)) [
  | inl same ↦ rw (no_template, some_want, same) (sym ((text_eq_iff want old).0 same))
  | inr other ↦ rw (no_template, some_want, other) refl
]

missing_lem : (found : Option Text) → is_some found ≡ false → or_empty found ≡ []
missing_lem none e = refl
missing_lem (some v) e = absurd (cc e)

-- The new file has the template of the old one.
pub read_synced_template :
    (m e : Entries) → read template_key (sync_manifest m e) ≡ read template_key m
unfolding synced_value change_of
read_synced_template m e = elim (Bool-cases (is_some (find template_key m))) [
  | inl there ↦
      ap or_empty (find_synced_old m e template_key there)
      ∙ change_to_template (read template_key m) (find template_key e)
  | inr missing ↦
      ap or_empty (find_synced_new m e template_key missing)
      ∙ rw (has-added_keys_template m e) (sym (missing_lem (find template_key m) missing))
]

-- It has the pin of each key that is wired, where there is one.
pub read_synced_wired :
    (m e : Entries) (key want : Text)
    → find key e ≡ some want
    → text_eq key template_key ≡ false
    → is_empty want ≡ false
    → read key (sync_manifest m e) ≡ want
unfolding synced_value change_of
read_synced_wired m e key want found no_template some_want =
    elim (Bool-cases (is_some (find key m))) [
      | inl there ↦
          ap or_empty (find_synced_old m e key there)
          ∙ ap (λ o. value_or (read key m) (change_to key (read key m) o)) found
          ∙ change_to_wired key (read key m) want no_template some_want
      | inr missing ↦
          let adds : is_added m key want ≡ true = ground (arith, missing, no_template, some_want) in
          ap or_empty (find_synced_new m e key missing)
          ∙ rw (has-added_keys m e key want found adds) (ap or_empty found)
    ]
