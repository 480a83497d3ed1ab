-- ===== src/Scripts/AdrLog/Hunks.antt =====
-- The reader of adrlog.go inside the hunks of one file.
use go_performance_starter.Prelude.{
  ℕ, ◌+◌, ◌*◌, ◌-◌, ◌%◌, ◌^◌, ◌<◌, min, true, false, List, [], ◌∷◌, ◌++◌, some, ◌≡◌, refl, ap, sym,
  ◌∙◌, arith, map, All, append_assoc, append-nil,
}
use go_performance_starter.Prelude.Text.{Text, codes, text_eq, has_prefix}
use go_performance_starter.Scripts.AdrLog.{
  Finding, Reader, rewritten_in, flush, leading_number, hunk_start, start_hunk, read_line,
  read_lines, is_none,
}
use go_performance_starter.Scripts.AdrLog.Printed.{
  Change, Hunk, print_change, numeral, print_hunks, IsChange, ends_number, IsHunk, decimal_value,
  numbered, puts, first_line, hunk_findings, hunks_findings, dropped, put, no_newline,
}

pub leading_number-numeral :
    (n : ℕ) (ds : List ℕ) (tail : Text)
    → All (λ d. d < 10) ds
    → ends_number tail ≡ true
    → leading_number n (numeral ds ++ tail) ≡ decimal_value n ds
unfolding leading_number
leading_number-numeral n [] [] h e = refl
leading_number-numeral n [] (c ∷ s) h e = ground arith
leading_number-numeral n (d ∷ ds) tail (small, h) e =
    ground (arith, leading_number-numeral (n * 10 + d) ds tail h e)

pub hunk_start-numeral :
    (ds : List ℕ) (tail : Text)
    → is_none ds ≡ false
    → All (λ d. d < 10) ds
    → ends_number tail ≡ true
    → hunk_start (codes "@@ -" ++ (numeral ds ++ tail))
      ≡ some (min (decimal_value 0 ds) (2 ^ 63 - 1))
unfolding hunk_start has_prefix
hunk_start-numeral [] tail digit _ ended = absurd (ground arith)
hunk_start-numeral (d ∷ ds) tail digit (small, h) ended =
    ground (arith, leading_number-numeral 0 (d ∷ ds) tail (small, h) ended)

pub read_lines-append :
    (s : Reader) (front back : List Text)
    → read_lines s (front ++ back) ≡ read_lines (read_lines s front) back
unfolding read_lines
read_lines-append s [] back = refl
read_lines-append s (l ∷ front) back = read_lines-append (read_line s l) front back

-- A reader inside a file that is still there.
abbrev pub inside : List Finding → Text → ℕ → List (Text × ℕ) → List Text → Reader
inside out path n removed added = record {
  violations = out;
  file = path;
  deleted = false;
  old_line = n;
  removed = removed;
  added = added;
}

abbrev after : ℕ → List Change → ℕ
after n [] = n
after n (dropped t ∷ cs) = after ((n + 1) % 2 ^ 64) cs
after n (put t ∷ cs) = after n cs
after n (no_newline ∷ cs) = after n cs

module _ (out : List Finding) (path : Text) (n : ℕ) (rs : List (Text × ℕ)) (ads : List Text)
    (named : is_none path ≡ false) where
  read_line-dropped :
      (t : Text)
      → has_prefix t (codes "-- ") ≡ false
      → read_line (inside out path n rs ads) (b'-' ∷ t)
        ≡ inside out path ((n + 1) % 2 ^ 64) (rs ++ (t, n) ∷ []) ads
  unfolding read_line has_prefix text_eq
  read_line-dropped t plain = ground arith

  read_line-put :
      (t : Text)
      → has_prefix t (codes "++ ") ≡ false
      → read_line (inside out path n rs ads) (b'+' ∷ t) ≡ inside out path n rs (ads ++ t ∷ [])
  unfolding read_line has_prefix text_eq
  read_line-put t plain = ground arith

  read_line-no_newline :
      read_line (inside out path n rs ads) (print_change no_newline) ≡ inside out path n rs ads
  unfolding read_line has_prefix text_eq
  read_line-no_newline = ground arith

pub read_lines-changes :
    (out : List Finding) (path : Text) (n : ℕ) (rs : List (Text × ℕ)) (ads : List Text)
    (cs : List Change)
    → is_none path ≡ false
    → All IsChange cs
    → read_lines (inside out path n rs ads) (map print_change cs)
      ≡ inside out path (after n cs) (rs ++ numbered n cs) (ads ++ puts cs)
unfolding read_lines
read_lines-changes out path n rs ads [] some_path h =
    rw (append-nil rs, append-nil ads, read_lines) refl
read_lines-changes out path n rs ads (dropped t ∷ cs) some_path (now, h) =
    ap (λ s. read_lines s (map print_change cs))
      (read_line-dropped out path n rs ads some_path t now)
    ∙ read_lines-changes out path ((n + 1) % 2 ^ 64) (rs ++ (t, n) ∷ []) ads cs some_path h
    ∙ ap (λ r. inside out path (after ((n + 1) % 2 ^ 64) cs) r (ads ++ puts cs))
        (append_assoc rs ((t, n) ∷ []) (numbered ((n + 1) % 2 ^ 64) cs))
read_lines-changes out path n rs ads (put t ∷ cs) some_path (now, h) =
    ap (λ s. read_lines s (map print_change cs)) (read_line-put out path n rs ads some_path t now)
    ∙ read_lines-changes out path n rs (ads ++ t ∷ []) cs some_path h
    ∙ ap (inside out path (after n cs) (rs ++ numbered n cs)) (append_assoc ads (t ∷ []) (puts cs))
read_lines-changes out path n rs ads (no_newline ∷ cs) some_path (now, h) =
    ap (λ s. read_lines s (map print_change cs)) (read_line-no_newline out path n rs ads some_path)
    ∙ read_lines-changes out path n rs ads cs some_path h

-- What stands in the reader's findings once the last hunk is closed.
abbrev pub closed : Reader → List Finding
closed s = s.violations ++ rewritten_in s.file s.removed s.added

-- A reader that has just opened a hunk, after closing the one before.
read_line-header :
    (out : List Finding) (path : Text) (n : ℕ) (rs : List (Text × ℕ)) (ads : List Text) (h : Hunk)
    → IsHunk h
    → read_line (inside out path n rs ads) (codes "@@ -" ++ (numeral h.digits ++ h.tail))
      ≡ inside (closed (inside out path n rs ads)) path (first_line h) [] []
unfolding read_line flush start_hunk has_prefix text_eq
read_line-header out path n rs ads h good =
    rw (hunk_start-numeral h.digits h.tail good.some_digit good.decimal good.ended) refl

-- Reading the hunks of a file adds their findings, in order.
pub closed-hunks :
    (out : List Finding) (path : Text) (n : ℕ) (rs : List (Text × ℕ)) (ads : List Text)
    (hs : List Hunk)
    → is_none path ≡ false
    → All IsHunk hs
    → closed (read_lines (inside out path n rs ads) (print_hunks hs))
      ≡ closed (inside out path n rs ads) ++ hunks_findings path hs
unfolding read_lines
closed-hunks out path n rs ads [] named h = sym (append-nil _)
closed-hunks out path n rs ads (k ∷ hs) named (good, h) =
    let now = closed (inside out path n rs ads) in
    let at_hunk =
      ap (λ s. read_lines s (map print_change k.changes ++ print_hunks hs))
        (read_line-header out path n rs ads k good) in
    let split =
      read_lines-append (inside now path (first_line k) [] []) (map print_change k.changes)
        (print_hunks hs) in
    let all_changes =
      ap (λ s. read_lines s (print_hunks hs))
        (read_lines-changes now path (first_line k) [] [] k.changes named good.plain) in
    ap closed (at_hunk ∙ split ∙ all_changes)
    ∙ closed-hunks now path (after (first_line k) k.changes) (numbered (first_line k) k.changes)
        (puts k.changes) hs named h
    ∙ append_assoc now (hunk_findings path k) (hunks_findings path hs)
