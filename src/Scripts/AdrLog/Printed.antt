-- ===== src/Scripts/AdrLog/Printed.antt =====
-- Diffs as `git diff -U0` prints them, with its default prefixes and names that it does not quote, and
-- the findings that the reader of adrlog.go is to give on one.
use go_performance_starter.Prelude.{
  ℕ, ◌+◌, ◌*◌, ◌-◌, ◌%◌, ◌^◌, ◌<◌, min, Bool, true, false, List, [], ◌∷◌, ◌++◌, ◌≡◌, if◌then◌else◌,
  map, All, leb,
}
use go_performance_starter.Prelude.Text.{Text, codes, has_prefix, trim_space, trim_left_by}
use go_performance_starter.Scripts.AdrLog.{Finding, gone, rewritten_in, is_list_mark, is_none}

pub data Change : Type 0 where
  dropped : Text → Change
  put : Text → Change
  no_newline : Change

-- The lines between the header of a patch and its hunks. The command names -U0, --no-renames and
-- --diff-filter=MD, so that files are modified or deleted, under one name.
pub data Note : Type 0 where
  old_mode : Text → Note
  new_mode : Text → Note
  deleted_file_mode : Text → Note
  index_line : Text → Note
  binary_files : Text → Note

pub record Hunk : Type 0 where
  pub digits : List ℕ
  pub tail : Text
  pub changes : List Change

pub record Patch : Type 0 where
  pub about : Text
  pub notes : List Note
  pub path : Text
  pub is_gone : Bool
  pub hunks : List Hunk

-- How git prints them, line by line.
abbrev pub print_change : Change → Text
print_change (dropped t) = b'-' ∷ t
print_change (put t) = b'+' ∷ t
print_change no_newline = codes "\\ No newline at end of file"

abbrev pub print_note : Note → Text
print_note (old_mode s) = codes "old mode " ++ s
print_note (new_mode s) = codes "new mode " ++ s
print_note (deleted_file_mode s) = codes "deleted file mode " ++ s
print_note (index_line s) = codes "index " ++ s
print_note (binary_files s) = codes "Binary files " ++ s

abbrev pub numeral : List ℕ → Text
numeral [] = []
numeral (d ∷ ds) = (d + 48) ∷ numeral ds

abbrev pub print_hunk : Hunk → List Text
print_hunk h = (codes "@@ -" ++ (numeral h.digits ++ h.tail)) ∷ map print_change h.changes

abbrev pub print_hunks : List Hunk → List Text
print_hunks [] = []
print_hunks (h ∷ hs) = print_hunk h ++ print_hunks hs

abbrev pub new_side : Patch → Text
new_side p = if p.is_gone then codes "+++ /dev/null" else codes "+++ b/" ++ p.path

-- The two lines that name the file stand before the hunks; a patch without hunks has neither, as one of
-- the mode alone, of a binary file, or of a deleted file that was empty.
abbrev pub print_file : Patch → List Hunk → List Text
print_file p [] = []
print_file p (h ∷ hs) = (codes "--- a/" ++ p.path) ∷ new_side p ∷ print_hunks (h ∷ hs)

abbrev pub print_patch : Patch → List Text
print_patch p = (codes "diff --git " ++ p.about) ∷ (map print_note p.notes ++ print_file p p.hunks)

abbrev pub print_patches : List Patch → List Text
print_patches [] = []
print_patches (p ∷ ps) = print_patch p ++ print_patches ps

-- What git's format promises, and the reader relies on: a numeral in each header; a path; and no
-- changed line whose print reads as a header of a file.
abbrev pub IsChange : Change → Type 0
IsChange (dropped t) = has_prefix t (codes "-- ") ≡ false
IsChange (put t) = has_prefix t (codes "++ ") ≡ false
IsChange no_newline = Unit

abbrev pub ends_number : Text → Bool
ends_number [] = true
ends_number (c ∷ s) = if leb 48 c then leb 58 c else true

pub record IsHunk (h : Hunk) : Type 0 where
  pub some_digit : is_none h.digits ≡ false
  pub decimal : All (λ d. d < 10) h.digits
  pub ended : ends_number h.tail ≡ true
  pub plain : All IsChange h.changes

pub record IsPatch (p : Patch) : Type 0 where
  pub named : is_none p.path ≡ false
  pub sound : All IsHunk p.hunks

-- The value of decimal digits, most significant first.
abbrev pub decimal_value : ℕ → List ℕ → ℕ
decimal_value n [] = n
decimal_value n (d ∷ ds) = decimal_value (n * 10 + d) ds

-- The dropped lines with their numbers in the old file, and the lines put.
abbrev pub numbered : ℕ → List Change → List (Text × ℕ)
numbered n [] = []
numbered n (dropped t ∷ cs) = (t, n) ∷ numbered ((n + 1) % 2 ^ 64) cs
numbered n (put t ∷ cs) = numbered n cs
numbered n (no_newline ∷ cs) = numbered n cs

abbrev pub puts : List Change → List Text
puts [] = []
puts (dropped t ∷ cs) = puts cs
puts (put t ∷ cs) = t ∷ puts cs
puts (no_newline ∷ cs) = puts cs

abbrev pub first_line : Hunk → ℕ
first_line h = min (decimal_value 0 h.digits) (2 ^ 63 - 1)

abbrev pub hunk_findings : Text → Hunk → List Finding
hunk_findings path h = rewritten_in path (numbered (first_line h) h.changes) (puts h.changes)

abbrev pub hunks_findings : Text → List Hunk → List Finding
hunks_findings path [] = []
hunks_findings path (h ∷ hs) = hunk_findings path h ++ hunks_findings path hs

abbrev pub file_findings : Patch → List Hunk → List Finding
file_findings p [] = []
file_findings p (h ∷ hs) = if p.is_gone then gone p.path ∷ [] else hunks_findings p.path (h ∷ hs)

abbrev pub patch_findings : Patch → List Finding
patch_findings p = file_findings p p.hunks

abbrev pub patches_findings : List Patch → List Finding
patches_findings [] = []
patches_findings (p ∷ ps) = patch_findings p ++ patches_findings ps

-- The text that has to survive when a line is dropped: without blanks around it and list marks.
abbrev pub body_of : Text → Text
body_of t = trim_left_by is_list_mark (trim_space t)

-- One of the lines has this text inside.
pub data Holds (body : Text) : List Text → Type 0 where
  here : (front back : Text) {rest : List Text} → Holds body ((front ++ (body ++ back)) ∷ rest)
  there : (line : Text) {rest : List Text} → Holds body rest → Holds body (line ∷ rest)

abbrev pub Kept : List Text → Change → Type 0
Kept added (dropped t) = Holds (body_of t) added
Kept added (put t) = Unit
Kept added no_newline = Unit

-- Every dropped line survives inside a line put in the same hunk, and no file goes.
abbrev pub IsAppend : Patch → Type 0
IsAppend p = (p.is_gone ≡ false) × All (λ h. All (Kept (puts h.changes)) h.changes) p.hunks
