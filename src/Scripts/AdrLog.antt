-- ===== src/Scripts/AdrLog.antt =====
-- removalAllowed and removedLinesFromExistingADRs of scripts/adrcheck/adrlog.go: which lines of an
-- existing record may be dropped, and the reader of a unified diff that applies this to each hunk.
pub mod Printed
pub mod Hunks
pub mod Reading
pub mod Appending
pub mod Tests
use go_performance_starter.Prelude.{
  ℕ, ◌+◌, ◌*◌, ◌-◌, ◌%◌, ◌^◌, min, Bool, true, false, ◌&&◌, ◌||◌, not, List, [], ◌∷◌, ◌++◌, Option,
  none, some, leb, ◌==◌, if◌then◌else◌, length, drop, any,
}
use go_performance_starter.Prelude.Text.{
  Text, codes, text_eq, has_prefix, trim_space, trim_left_by, split_on,
}
use go_performance_starter.Prelude.Search.{contains, trim_prefix}

-- What one message of the check says; `line` and `text` are what it prints.
pub data Finding : Type 0 where
  rewritten : (file : Text) (line : ℕ) (text : Text) → Finding
  gone : (file : Text) → Finding

-- Case folding of (?i), for the letters of the pattern: ASCII, and the long s.
abbrev fold_case : ℕ → ℕ
fold_case c = if leb 65 c && leb c 90 then c + 32 else if c == 0x17f then 115 else c

abbrev fold_all : Text → Text
fold_all [] = []
fold_all (c ∷ s) = fold_case c ∷ fold_all s

-- \w
abbrev is_word : ℕ → Bool
is_word c = leb 48 c && leb c 57 || leb 65 c && leb c 90 || leb 97 c && leb c 122 || c == b'_'

-- \s
abbrev is_blank : ℕ → Bool
is_blank c = c == 9 || c == 10 || c == 12 || c == 13 || c == 32

-- \b behind a letter
abbrev ends_here : Text → Bool
ends_here [] = true
ends_here (c ∷ s) = not (is_word c)

abbrev starts_word : Text → Text → Bool
starts_word s word = has_prefix (fold_all s) word && ends_here (drop (length word) s)

-- (proposed|accepted|deprecated|superseded)\b
unfoldable status_word : Text → Bool
unfolding has_prefix
status_word s =
    starts_word s (codes "proposed")
    || starts_word s (codes "accepted")
    || starts_word s (codes "deprecated")
    || starts_word s (codes "superseded")

abbrev skip_colon : Text → Text
skip_colon s = if has_prefix s (codes ":") then drop 1 s else s

-- \*\*status:?\*\*:?\s* before a status word
unfoldable status_label : Text → Bool
unfolding has_prefix status_word
status_label s =
    let rest = skip_colon (drop 8 s) in
    has_prefix (fold_all s) (codes "**status")
    && has_prefix rest (codes "**")
    && status_word (trim_left_by is_blank (skip_colon (drop 2 rest)))

abbrev is_marker : ℕ → Bool
is_marker c = is_blank c || c == b'*' || c == b'>' || c == b'-'

-- adrStatusLineRe: the markers [\s*>-]* may end before any of them.
unfoldable status_line : Text → Bool
unfolding status_word status_label
status_line [] = false
status_line (c ∷ s) = status_word (c ∷ s) || status_label (c ∷ s) || is_marker c && status_line s

-- the set of strings.TrimLeft(text, "-*> \t")
abbrev pub is_list_mark : ℕ → Bool
is_list_mark c = c == b'-' || c == b'*' || c == b'>' || c == 32 || c == 9

abbrev pub is_none : Text → Bool
is_none [] = true
is_none (c ∷ s) = false

unfoldable pub survives : Text → List Text → Bool
unfolding contains
survives body added = is_none body || any (λ a. contains a body) added

unfoldable pub removal_allowed : Text → List Text → Bool
unfolding trim_space status_line contains survives
removal_allowed removed added =
    let text = trim_space removed in
    is_none text
    || status_line text
    || contains text (codes "_(empty")
    || survives (trim_left_by is_list_mark text) added

-- The variables of the reader. A removed line stands with its number, which the code keeps in a
-- slice beside it; `old_line` is the pattern of an int of 64 bits.
pub record Reader : Type 0 where
  pub violations : List Finding
  pub file : Text
  pub deleted : Bool
  pub old_line : ℕ
  pub removed : List (Text × ℕ)
  pub added : List Text

-- The findings of one hunk.
unfoldable pub rewritten_in : Text → List (Text × ℕ) → List Text → List Finding
unfolding removal_allowed trim_space
rewritten_in file [] added = []
rewritten_in file ((r, at) ∷ removed) added =
    let rest = rewritten_in file removed added in
    if removal_allowed r added then rest else rewritten file at (trim_space r) ∷ rest

unfoldable pub flush : Reader → Reader
unfolding rewritten_in
flush s = record s {
  violations = s.violations ++ rewritten_in s.file s.removed s.added;
  removed = [];
  added = [];
}

abbrev is_digit : ℕ → Bool
is_digit c = leb 48 c && leb c 57

-- The value of the digits in front, behind those read before.
unfoldable pub leading_number : ℕ → Text → ℕ
leading_number n [] = n
leading_number n (c ∷ s) = elim (is_digit c) [
  | true ↦ leading_number (n * 10 + (c - 48)) s
  | false ↦ n
]

abbrev starts_number : Text → Bool
starts_number [] = false
starts_number (c ∷ s) = is_digit c

-- hunkHeaderRe and strconv.Atoi, which answers the largest int where the digits exceed it.
unfoldable pub hunk_start : Text → Option ℕ
unfolding has_prefix leading_number
hunk_start line =
    let digits = drop 4 line in
    if has_prefix line (codes "@@ -") && starts_number digits
    then some (min (leading_number 0 digits) (2 ^ 63 - 1))
    else none

unfoldable pub start_hunk : Option ℕ → Reader → Reader
start_hunk none s = s
start_hunk (some n) s = record s { old_line = n }

-- One pass of the loop over the lines of the diff.
unfoldable pub read_line : Reader → Text → Reader
unfolding has_prefix text_eq trim_prefix flush hunk_start start_hunk
read_line s line =
    if has_prefix line (codes "diff --git ")
    then record (flush s) { file = []; deleted = false }
    else if has_prefix line (codes "--- a/")
    then record s { file = trim_prefix line (codes "--- a/") }
    else if text_eq line (codes "+++ /dev/null")
    then record s { deleted = true; violations = s.violations ++ gone s.file ∷ [] }
    else if has_prefix line (codes "--- ") || has_prefix line (codes "+++ ")
    then s
    else if has_prefix line (codes "@@")
    then start_hunk (hunk_start line) (flush s)
    else if s.deleted || is_none s.file
    then s
    else if has_prefix line (codes "-")
    then record s {
      removed = s.removed ++ (drop 1 line, s.old_line) ∷ [];
      old_line = (s.old_line + 1) % 2 ^ 64;
    }
    else if has_prefix line (codes "+")
    then record s { added = s.added ++ drop 1 line ∷ [] }
    else s

unfoldable pub read_lines : Reader → List Text → Reader
unfolding read_line
read_lines s [] = s
read_lines s (line ∷ rest) = read_lines (read_line s line) rest

abbrev pub unread : Reader
unread = record {
  violations = [];
  file = [];
  deleted = false;
  old_line = 0;
  removed = [];
  added = [];
}

unfoldable pub removed_lines_from_existing_adrs : Text → List Finding
unfolding split_on read_lines flush
removed_lines_from_existing_adrs diff = (flush (read_lines unread (split_on b'\n' diff))).violations
