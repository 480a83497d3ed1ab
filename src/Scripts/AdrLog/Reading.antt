-- ===== src/Scripts/AdrLog/Reading.antt =====
-- The reader of adrlog.go on the diffs of Printed.antt.
use go_performance_starter.Prelude.{
  ℕ, true, false, List, [], ◌∷◌, ◌++◌, ◌≡◌, refl, ap, sym, ◌∙◌, arith, if◌then◌else◌, map, All,
  append_assoc, append-nil, Bool-cases, inl, inr,
}
use go_performance_starter.Prelude.Text.{Text, codes, text_eq, has_prefix}
use go_performance_starter.Prelude.Search.{trim_prefix, IsWithout, unlines, split_on-unlines}
use go_performance_starter.Scripts.AdrLog.{
  is_none, Finding, gone, Reader, unread, rewritten_in, flush, start_hunk, read_line, read_lines,
  removed_lines_from_existing_adrs,
}
use go_performance_starter.Scripts.AdrLog.Printed.{
  Change, Hunk, Patch, print_change, numeral, print_hunks, new_side, print_patch, print_patches,
  Note, old_mode, new_mode, deleted_file_mode, index_line, binary_files, print_note, print_file,
  file_findings, no_newline, IsChange, IsHunk, IsPatch, first_line, hunks_findings, patch_findings,
  patches_findings, dropped, put,
}
use go_performance_starter.Scripts.AdrLog.Hunks.{
  hunk_start-numeral, read_lines-append, inside, closed, closed-hunks,
}

-- A reader inside a file that was deleted.
abbrev past : List Finding → Text → ℕ → Reader
past out path n = record {
  violations = out;
  file = path;
  deleted = true;
  old_line = n;
  removed = [];
  added = [];
}

read_line-past :
    (out : List Finding) (path : Text) (n : ℕ) (c : Change)
    → IsChange c
    → read_line (past out path n) (print_change c) ≡ past out path n
unfolding read_line has_prefix text_eq
read_line-past out path n (dropped t) plain = ground arith
read_line-past out path n (put t) plain = ground arith
read_line-past out path n no_newline plain = ground arith

read_lines-past :
    (out : List Finding) (path : Text) (n : ℕ) (cs : List Change)
    → All IsChange cs
    → read_lines (past out path n) (map print_change cs) ≡ past out path n
unfolding read_lines
read_lines-past out path n [] h = refl
read_lines-past out path n (c ∷ cs) (now, h) =
    ap (λ s. read_lines s (map print_change cs)) (read_line-past out path n c now)
    ∙ read_lines-past out path n cs h

read_line-header_past :
    (out : List Finding) (path : Text) (n : ℕ) (h : Hunk)
    → IsHunk h
    → read_line (past out path n) (codes "@@ -" ++ (numeral h.digits ++ h.tail))
      ≡ past out path (first_line h)
unfolding read_line flush start_hunk rewritten_in has_prefix text_eq
read_line-header_past out path n h good =
    rw (hunk_start-numeral h.digits h.tail good.some_digit good.decimal good.ended)
      (ap (λ o. past o path (first_line h)) (append-nil out))

-- The hunks of a deleted file add nothing to the finding that it is gone.
closed-past :
    (out : List Finding) (path : Text) (n : ℕ) (hs : List Hunk)
    → All IsHunk hs
    → closed (read_lines (past out path n) (print_hunks hs)) ≡ out
unfolding read_lines rewritten_in
closed-past out path n [] h = append-nil out
closed-past out path n (k ∷ hs) (good, h) =
    let at_hunk =
      ap (λ s. read_lines s (map print_change k.changes ++ print_hunks hs))
        (read_line-header_past out path n k good) in
    let split =
      read_lines-append (past out path (first_line k)) (map print_change k.changes)
        (print_hunks hs) in
    let all_changes =
      ap (λ s. read_lines s (print_hunks hs))
        (read_lines-past out path (first_line k) k.changes good.plain) in
    ap closed (at_hunk ∙ split ∙ all_changes) ∙ closed-past out path (first_line k) hs h

-- A reader between the header of a patch and its hunks.
abbrev before : List Finding → ℕ → Reader
before out n = inside out [] n [] []

read_line-about :
    (s : Reader) (about : Text)
    → read_line s (codes "diff --git " ++ about) ≡ before (closed s) s.old_line
unfolding read_line has_prefix flush
read_line-about s about = ground arith

read_line-note :
    (out : List Finding) (n : ℕ) (note : Note)
    → read_line (before out n) (print_note note) ≡ before out n
unfolding read_line has_prefix text_eq
read_line-note out n (old_mode s) = ground arith
read_line-note out n (new_mode s) = ground arith
read_line-note out n (deleted_file_mode s) = ground arith
read_line-note out n (index_line s) = ground arith
read_line-note out n (binary_files s) = ground arith

read_lines-notes :
    (out : List Finding) (n : ℕ) (notes : List Note) (rest : List Text)
    → read_lines (before out n) (map print_note notes ++ rest) ≡ read_lines (before out n) rest
unfolding read_lines
read_lines-notes out n [] rest = refl
read_lines-notes out n (note ∷ notes) rest =
    ap (λ s. read_lines s (map print_note notes ++ rest)) (read_line-note out n note)
    ∙ read_lines-notes out n notes rest

-- The two lines that name a file.
abbrev opened : List Finding → ℕ → Patch → Reader
opened out n p =
    if p.is_gone then past (out ++ gone p.path ∷ []) p.path n else inside out p.path n [] []

read_lines-opening :
    (out : List Finding) (n : ℕ) (p : Patch) (rest : List Text)
    → read_lines (before out n) ((codes "--- a/" ++ p.path) ∷ new_side p ∷ rest)
      ≡ read_lines (opened out n p) rest
unfolding read_lines read_line has_prefix text_eq trim_prefix
read_lines-opening out n p rest = ground arith

closed-file :
    (out : List Finding) (n : ℕ) (p : Patch) (hs : List Hunk)
    → is_none p.path ≡ false
    → All IsHunk hs
    → closed (read_lines (before out n) (print_file p hs)) ≡ out ++ file_findings p hs
unfolding read_lines rewritten_in
closed-file out n p [] named sound = refl
closed-file out n p (h ∷ hs) named sound = elim (Bool-cases p.is_gone) [
  | inl lost ↦
      ap closed (read_lines-opening out n p (print_hunks (h ∷ hs)))
      ∙ rw lost (closed-past (out ++ gone p.path ∷ []) p.path n (h ∷ hs) sound)
  | inr kept ↦
      ap closed (read_lines-opening out n p (print_hunks (h ∷ hs)))
      ∙ rw kept (
          closed-hunks out p.path n [] [] (h ∷ hs) named sound
          ∙ ap (λ o. o ++ hunks_findings p.path (h ∷ hs)) (append-nil out))
]

closed-patch :
    (s : Reader) (p : Patch)
    → IsPatch p
    → closed (read_lines s (print_patch p)) ≡ closed s ++ patch_findings p
unfolding read_lines
closed-patch s p good =
    ap (λ t. closed (read_lines t (map print_note p.notes ++ print_file p p.hunks)))
      (read_line-about s p.about)
    ∙ ap closed (read_lines-notes (closed s) s.old_line p.notes (print_file p p.hunks))
    ∙ closed-file (closed s) s.old_line p p.hunks good.named good.sound

closed-patches :
    (s : Reader) (ps : List Patch)
    → All IsPatch ps
    → closed (read_lines s (print_patches ps)) ≡ closed s ++ patches_findings ps
unfolding read_lines
closed-patches s [] h = sym (append-nil (closed s))
closed-patches s (p ∷ ps) (good, h) =
    ap closed (read_lines-append s (print_patch p) (print_patches ps))
    ∙ closed-patches (read_lines s (print_patch p)) ps h
    ∙ ap (λ o. o ++ patches_findings ps) (closed-patch s p good)
    ∙ append_assoc (closed s) (patch_findings p) (patches_findings ps)

-- An empty line changes nothing.
read_line_nil : (s : Reader) → read_line s [] ≡ s
unfolding read_line has_prefix text_eq
read_line_nil s = ground arith

-- On the output of the git command of the check, of any files and hunks, with the lines that git adds
-- on modes, blobs, binary files and a missing newline, its default prefixes and no name that it
-- quotes, where no changed line prints as the header of a file: the check reports each deleted file
-- that has a hunk, and, of each hunk of the others, every dropped line that the lines put in that hunk
-- do not excuse, with its number in the old file and in the order of the diff; and it reports nothing
-- else.
pub removed_lines_from_existing_adrs-print_patches :
    (ps : List Patch)
    → All IsPatch ps
    → All (IsWithout b'\n') (print_patches ps)
    → removed_lines_from_existing_adrs (unlines (print_patches ps)) ≡ patches_findings ps
unfolding removed_lines_from_existing_adrs flush read_lines
removed_lines_from_existing_adrs-print_patches ps good one_line =
    let end = read_lines unread (print_patches ps) in
    ap (λ ls. closed (read_lines unread ls)) (split_on-unlines (print_patches ps) one_line)
    ∙ ap closed (read_lines-append unread (print_patches ps) ([] ∷ []))
    ∙ ap closed (read_line_nil end)
    ∙ closed-patches unread ps good
