-- ===== src/Scripts/AdrLog/Appending.antt =====
-- The reader of adrlog.go has nothing to say on a diff that appends.
use go_performance_starter.Prelude.{
  ℕ, ◌+◌, ◌%◌, ◌^◌, true, false, List, [], ◌∷◌, ◌++◌, ◌≡◌, refl, ◌∙◌, arith, All, any,
}
use go_performance_starter.Prelude.Text.{Text, has_prefix}
use go_performance_starter.Prelude.Search.{contains, IsWithout, unlines}
use go_performance_starter.Scripts.AdrLog.{
  removal_allowed, survives, rewritten_in, removed_lines_from_existing_adrs,
}
use go_performance_starter.Scripts.AdrLog.Printed.{
  body_of, Kept, Change, Hunk, Patch, print_patches, IsPatch, numbered, puts, first_line,
  file_findings, no_newline, hunks_findings, patches_findings, Holds, IsAppend, dropped, put, here,
  there,
}
use go_performance_starter.Scripts.AdrLog.Reading.{removed_lines_from_existing_adrs-print_patches}

has_prefix-append : (s t : Text) → has_prefix (s ++ t) s ≡ true
unfolding has_prefix
has_prefix-append [] t = ground arith
has_prefix-append (c ∷ s) t = ground (arith, has_prefix-append s t)

contains_prefix : (s sub : Text) → has_prefix s sub ≡ true → contains s sub ≡ true
unfolding contains
contains_prefix [] sub h = h
contains_prefix (c ∷ s) sub h = rw h refl

contains-append : (front body back : Text) → contains (front ++ (body ++ back)) body ≡ true
unfolding contains
contains-append [] body back = contains_prefix (body ++ back) body (has_prefix-append body back)
contains-append (c ∷ front) body back = ground (arith, contains-append front body back)

any-Holds :
    (body : Text) {added : List Text} → Holds body added → any (λ a. contains a body) added ≡ true
any-Holds body (here front back) = rw (contains-append front body back, any) refl
any-Holds body (there line held) = ground (arith, any-Holds body held)

removal_allowed-Holds :
    (t : Text) (added : List Text) → Holds (body_of t) added → removal_allowed t added ≡ true
unfolding removal_allowed survives
removal_allowed-Holds t added held = ground (arith, any-Holds (body_of t) held)

rewritten_in-Kept :
    (path : Text) (n : ℕ) (cs : List Change) (added : List Text)
    → All (Kept added) cs
    → rewritten_in path (numbered n cs) added ≡ []
unfolding rewritten_in
rewritten_in-Kept path n [] added h = refl
rewritten_in-Kept path n (dropped t ∷ cs) added (now, h) =
    rw (removal_allowed-Holds t added now) (rewritten_in-Kept path ((n + 1) % 2 ^ 64) cs added h)
rewritten_in-Kept path n (put t ∷ cs) added (now, h) = rewritten_in-Kept path n cs added h
rewritten_in-Kept path n (no_newline ∷ cs) added (now, h) = rewritten_in-Kept path n cs added h

hunks_findings-IsAppend :
    (path : Text) (hs : List Hunk)
    → All (λ h. All (Kept (puts h.changes)) h.changes) hs
    → hunks_findings path hs ≡ []
hunks_findings-IsAppend path [] h = refl
hunks_findings-IsAppend path (k ∷ hs) (now, h) =
    rw (rewritten_in-Kept path (first_line k) k.changes (puts k.changes) now)
      (hunks_findings-IsAppend path hs h)

file_findings-IsAppend :
    (p : Patch) (hs : List Hunk)
    → p.is_gone ≡ false
    → All (λ h. All (Kept (puts h.changes)) h.changes) hs
    → file_findings p hs ≡ []
file_findings-IsAppend p [] kept h = refl
file_findings-IsAppend p (k ∷ hs) kept h = rw kept (hunks_findings-IsAppend p.path (k ∷ hs) h)

patches_findings-IsAppend : (ps : List Patch) → All IsAppend ps → patches_findings ps ≡ []
patches_findings-IsAppend [] h = refl
patches_findings-IsAppend (p ∷ ps) ((kept, now), h) =
    rw (file_findings-IsAppend p p.hunks kept now) (patches_findings-IsAppend ps h)

-- The output of the git command of the check passes where it only appends: where no file is deleted,
-- and each dropped line, without the blanks around it and the list marks before it, stands inside a
-- line put in the same hunk, as when it is extended or struck through, there are no findings. The
-- prefixes are git's default, no name is quoted, and no changed line prints as the header of a file.
pub removed_lines_from_existing_adrs-IsAppend :
    (ps : List Patch)
    → All IsPatch ps
    → All (IsWithout b'\n') (print_patches ps)
    → All IsAppend ps
    → removed_lines_from_existing_adrs (unlines (print_patches ps)) ≡ []
removed_lines_from_existing_adrs-IsAppend ps good one_line kept =
    removed_lines_from_existing_adrs-print_patches ps good one_line
    ∙ patches_findings-IsAppend ps kept
