-- ===== src/Scripts/CheckVersions.antt =====
-- scripts/checkversions/main.go: versions.json against the pins of the repository. The manifest is the
-- list of its entries, decoded and in the order of the file, with no key twice; the pins that are found
-- are a list of entries in the order in which the map is walked. The decoder is outside of the model.
pub mod Synced
pub mod Pins
pub mod Written
use go_performance_starter.Prelude.{
  ℕ, Bool, true, false, not, ◌||◌, ◌&&◌, Option, none, some, List, [], ◌∷◌, ◌++◌, ltb, ◌==◌,
  if◌then◌else◌, map,
}
use go_performance_starter.Prelude.Text.{Text, codes, text_eq}
use go_performance_starter.Http.{is_empty}

abbrev pub Entries : Type 0
Entries = List (Text × Text)

abbrev pub find : Text → Entries → Option Text
find key [] = none
find key ((k, v) ∷ m) = let rest = find key m in if text_eq k key then some v else rest

abbrev pub or_empty : Option Text → Text
or_empty none = []
or_empty (some v) = v

-- m[key]
abbrev pub read : Text → Entries → Text
read key m = or_empty (find key m)

abbrev pub is_some : Option Text → Bool
is_some none = false
is_some (some v) = true

abbrev pub keys_of : Entries → List Text
keys_of [] = []
keys_of ((k, v) ∷ m) = k ∷ keys_of m

abbrev pub entries_of : (Text → Text) → List Text → Entries
entries_of f [] = []
entries_of f (k ∷ ks) = (k, f k) ∷ entries_of f ks

abbrev pub template_key : Text
template_key = codes "template"

-- s < t, which on UTF-8 is the order of the code points
unfoldable pub text_less : Text → Text → Bool
text_less s [] = false
text_less [] (b ∷ t) = true
text_less (a ∷ s) (b ∷ t) = let rest = text_less s t in if a == b then rest else ltb a b

-- The inner loop of sortStrings: `before` is what stands before the string, the nearest first. The
-- string is swapped with its neighbour while it is smaller.
unfoldable pub sink : Text → List Text → List Text
unfolding text_less
sink x [] = x ∷ []
sink x (y ∷ before) = let rest = sink x before in if text_less x y then y ∷ rest else x ∷ y ∷ before

abbrev pub back : List Text → List Text → List Text
back [] after = after
back (x ∷ before) after = back before (x ∷ after)

abbrev pub sort_from : List Text → List Text → List Text
sort_from before [] = back before []
sort_from before (x ∷ xs) = sort_from (sink x before) xs

-- sortStrings
unfoldable pub sort_strings : List Text → List Text
unfolding sink
sort_strings xs = sort_from [] xs

abbrev pub change_to : (key old : Text) → Option Text → Option Text
change_to key old none = none
change_to key old (some want) =
    if text_eq key template_key || is_empty want || text_eq want old then none else some want

-- The new value of a key of the file, if it is to change.
unfoldable pub change_of : Entries → Entries → Text → Option Text
unfolding text_eq
change_of manifest expected key = change_to key (read key manifest) (find key expected)

abbrev pub value_or : Text → Option Text → Text
value_or old none = old
value_or old (some want) = want

-- values[key], for a key of the file
unfoldable pub synced_value : Entries → Entries → Text → Text
unfolding change_of
synced_value manifest expected key = value_or (read key manifest) (change_of manifest expected key)

abbrev pub is_added : Entries → (key want : Text) → Bool
is_added manifest key want =
    not (is_some (find key manifest) || text_eq key template_key || is_empty want)

-- The keys that are wired and not in the file.
unfoldable pub added_keys : Entries → Entries → List Text
unfolding text_eq
added_keys manifest [] = []
added_keys manifest ((key, want) ∷ expected) =
    let rest = added_keys manifest expected in
    if is_added manifest key want then key ∷ rest else rest

-- syncManifest: the entries of the new file
unfoldable pub sync_manifest : Entries → Entries → Entries
unfolding synced_value sort_strings added_keys text_eq
sync_manifest manifest expected =
    entries_of (synced_value manifest expected) (keys_of manifest)
    ++ entries_of (λ key. read key expected) (sort_strings (added_keys manifest expected))

abbrev pub changed_keys : (Text → Option Text) → List Text → List Text
changed_keys change [] = []
changed_keys change (key ∷ keys) =
    let rest = changed_keys change keys in
    elim (change key) [ none ↦ rest | some want ↦ key ∷ rest ]

-- The keys in syncManifest's list of changes; main writes nothing where it is empty.
unfoldable pub changes_of : Entries → Entries → List Text
unfolding change_of sort_strings added_keys
changes_of manifest expected =
    changed_keys (change_of manifest expected) (keys_of manifest)
    ++ sort_strings (added_keys manifest expected)

-- What main's check reports.
pub data Mismatch : Type 0 where
  bad_template : Mismatch
  no_source : Text → Mismatch
  drifted : (key got want : Text) → Mismatch
  not_wired : Text → Mismatch

unfoldable pub wired_mismatches : Entries → Entries → List Mismatch
unfolding text_eq
wired_mismatches manifest [] = []
wired_mismatches manifest ((key, want) ∷ expected) =
    let rest = wired_mismatches manifest expected in
    if is_empty want
    then no_source key ∷ rest
    else if not (text_eq (read key manifest) want)
    then drifted key (read key manifest) want ∷ rest
    else rest

unfoldable pub unwired_keys : Entries → List Text → List Mismatch
unfolding text_eq
unwired_keys expected [] = []
unwired_keys expected (key ∷ keys) =
    let rest = unwired_keys expected keys in
    if text_eq key template_key || is_some (find key expected) then rest else not_wired key ∷ rest

module _ (is_version_tag : Text → Bool) where
  abbrev pub template_mismatch : Text → List Mismatch
  template_mismatch tag = if not (is_version_tag tag) then bad_template ∷ [] else []

  -- main without -write: it succeeds where nothing is reported. `is_version_tag` is templateRe.
  unfoldable pub check_manifest : Entries → Entries → List Mismatch
  unfolding wired_mismatches unwired_keys text_eq
  check_manifest manifest expected =
      template_mismatch (read template_key manifest)
      ++ wired_mismatches manifest expected
      ++ unwired_keys expected (keys_of manifest)
