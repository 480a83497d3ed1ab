-- ===== src/Scripts/AdrLog/Tests.antt =====
-- Diffs of two files, one of which is deleted.
use go_performance_starter.Prelude.{true, false, arith, [], ◌∷◌, ◌≡◌, refl}
use go_performance_starter.Prelude.Text.{codes, text_eq, has_prefix, trim_space, split_on}
use go_performance_starter.Prelude.Search.{contains, trim_prefix, unlines}
use go_performance_starter.Scripts.AdrLog.{
  rewritten, gone, removal_allowed, status_word, status_label, status_line, survives, rewritten_in,
  flush, leading_number, hunk_start, start_hunk, read_line, read_lines,
  removed_lines_from_existing_adrs,
}
use go_performance_starter.Scripts.AdrLog.Printed.{
  no_newline, deleted_file_mode, index_line, dropped, put, Hunk, Patch, print_patches, IsPatch,
  IsHunk, here,
}
use go_performance_starter.Scripts.AdrLog.Reading.{removed_lines_from_existing_adrs-print_patches}
use go_performance_starter.Scripts.AdrLog.Appending.{removed_lines_from_existing_adrs-IsAppend}

abbrev struck : Hunk
struck = record {
  digits = 1 ∷ 2 ∷ [];
  tail = codes " +12 @@";
  changes = dropped (codes "- old") ∷ no_newline ∷ put (codes "- ~~old~~") ∷ [];
}

abbrev reworded : Hunk
reworded = record {
  digits = 4 ∷ [];
  tail = codes ",2 +4 @@";
  changes =
      dropped (codes "**Status**: Accepted")
      ∷ dropped (codes " must ")
      ∷ put (codes "**Status**: Superseded")
      ∷ put (codes "may")
      ∷ [];
}

abbrev first_record : Patch
first_record = record {
  about = codes "a/1 b/1";
  notes = index_line (codes "cb089cd..6f7dcc4 100644") ∷ [];
  path = codes "1";
  is_gone = false;
  hunks = reworded ∷ struck ∷ [];
}

abbrev lost_record : Patch
lost_record = record {
  about = codes "a/2 b/2";
  notes = deleted_file_mode (codes "100644") ∷ index_line (codes "cb089cd..0000000") ∷ [];
  path = codes "2";
  is_gone = true;
  hunks = struck ∷ [];
}

abbrev appended_record : Patch
appended_record = record first_record { hunks = struck ∷ [] }

all_of_it : Unit {0}
unfolding text_eq has_prefix trim_space split_on contains trim_prefix removal_allowed status_word
    status_label status_line survives rewritten_in flush leading_number hunk_start start_hunk
    read_line read_lines removed_lines_from_existing_adrs
all_of_it = tt

struck-IsHunk : IsHunk struck
unfolding all_of_it
struck-IsHunk = record {
  some_digit = refl;
  decimal = (omega arith, (omega arith, tt));
  ended = refl;
  plain = (refl, (tt, (refl, tt)));
}

reworded-IsHunk : IsHunk reworded
unfolding all_of_it
reworded-IsHunk = record {
  some_digit = refl;
  decimal = (omega arith, tt);
  ended = refl;
  plain = (refl, (refl, (refl, (refl, tt))));
}

first_record-IsPatch : IsPatch first_record
first_record-IsPatch = record { named = refl; sound = (reworded-IsHunk, (struck-IsHunk, tt)) }

lost_record-IsPatch : IsPatch lost_record
lost_record-IsPatch = record { named = refl; sound = (struck-IsHunk, tt) }

appended_record-IsPatch : IsPatch appended_record
appended_record-IsPatch = record { named = refl; sound = (struck-IsHunk, tt) }

removed_lines_from_existing_adrs-print_patches_example :
    removed_lines_from_existing_adrs (unlines (print_patches (first_record ∷ lost_record ∷ [])))
    ≡ rewritten (codes "1") 5 (codes "must") ∷ gone (codes "2") ∷ []
unfolding all_of_it
removed_lines_from_existing_adrs-print_patches_example =
    removed_lines_from_existing_adrs-print_patches (first_record ∷ lost_record ∷ [])
      (first_record-IsPatch, (lost_record-IsPatch, tt)) (ground arith)

removed_lines_from_existing_adrs-IsAppend_example :
    removed_lines_from_existing_adrs (unlines (print_patches (appended_record ∷ []))) ≡ []
unfolding all_of_it
removed_lines_from_existing_adrs-IsAppend_example =
    removed_lines_from_existing_adrs-IsAppend (appended_record ∷ []) (appended_record-IsPatch, tt)
      (ground arith) ((refl, ((here (codes "- ~~") (codes "~~"), (tt, (tt, tt))), tt)), tt)

-- A deleted file that was empty has no lines that name it: it passes.
removed_empty :
    removed_lines_from_existing_adrs (
      unlines (
        codes "diff --git a/1 b/1"
        ∷ codes "deleted file mode 100644"
        ∷ codes "index e69de29..0000000"
        ∷ []))
    ≡ []
unfolding all_of_it
removed_empty = refl

-- A dropped line that begins with two dashes and a space prints as the header of a file: it passes.
removed_dashes :
    removed_lines_from_existing_adrs (
      unlines (
        codes "diff --git a/1 b/1"
        ∷ codes "--- a/1"
        ∷ codes "+++ b/1"
        ∷ codes "@@ -7 +6,0 @@"
        ∷ codes "--- must"
        ∷ []))
    ≡ []
unfolding all_of_it
removed_dashes = refl

adr_status_tests :
    (removal_allowed (codes "*   **Status:** accepted") [] ≡ true)
    × (removal_allowed (codes "> Proposed.") [] ≡ true)
    × (removal_allowed (codes "**Status**: acceptedly") [] ≡ false)
    × (removal_allowed (codes "- _(empty)_") [] ≡ true)
    × (removal_allowed (codes " -- ") [] ≡ true)
unfolding all_of_it
adr_status_tests = (refl, refl, refl, refl, refl)
