-- ===== src/Scripts/AdrCheck/Comments/Places.antt =====
-- A blanked text has its characters, or blanks, at the places of the source.
use go_performance_starter.Prelude.{
  ℕ, zero, suc, ◌+◌, Bool, true, false, ◌&&◌, List, [], ◌∷◌, ◌≡◌, refl, ap, arith, ◌==◌, length,
  take, ltb, leb, inl, inr, Bool-cases, ℕ-cases,
}
use go_performance_starter.Prelude.Text.{Text}
use go_performance_starter.Scripts.AdrCheck.Comments.{
  Span, blanked, blank_span, strip_go_comments, comment_length, strip_templ_from, starts_line,
  strip_templ_comments, line_of, newlines,
}

-- Character by character the same, or a space in place of anything but a newline.
pub data IsBlanked : Text → Text → Type 0 where
  end : IsBlanked [] []
  kept : (c : ℕ) {s t : Text} → IsBlanked s t → IsBlanked (c ∷ s) (c ∷ t)
  hidden :
      (c : ℕ) {s t : Text} → (c == b'\n') ≡ false → IsBlanked s t → IsBlanked (c ∷ s) (b' ' ∷ t)

IsBlanked-blanked : (c : ℕ) {s t : Text} → IsBlanked s t → IsBlanked (c ∷ s) (blanked c ∷ t)
IsBlanked-blanked c h = elim (Bool-cases (c == b'\n')) [
  | inl newline ↦ rw newline (kept c h)
  | inr other ↦ rw other (hidden c other h)
]

IsBlanked-refl : (s : Text) → IsBlanked s s
IsBlanked-refl [] = end
IsBlanked-refl (c ∷ s) = kept c (IsBlanked-refl s)

IsBlanked-trans : {s t u : Text} → IsBlanked s t → IsBlanked t u → IsBlanked s u
IsBlanked-trans end k = k
IsBlanked-trans (kept c h) (kept _ k) = kept c (IsBlanked-trans h k)
IsBlanked-trans (kept c h) (hidden _ e k) = hidden c e (IsBlanked-trans h k)
IsBlanked-trans (hidden c e h) (kept _ k) = hidden c e (IsBlanked-trans h k)
IsBlanked-trans (hidden c e h) (hidden _ _ k) = hidden c e (IsBlanked-trans h k)

-- Every line of the source has its number in the blanked text, and so has every offset.
abbrev pub IsInPlace : Text → Text → Type 0
IsInPlace source out =
    IsBlanked source out
    × ((length out ≡ length source) × ((i : ℕ) → line_of out i ≡ line_of source i))

length-IsBlanked : {s t : Text} → IsBlanked s t → length t ≡ length s
length-IsBlanked end = refl
length-IsBlanked (kept c h) = ap suc (length-IsBlanked h)
length-IsBlanked (hidden c e h) = ap suc (length-IsBlanked h)

newlines-IsBlanked :
    {s t : Text} (i : ℕ) → IsBlanked s t → newlines (take i t) ≡ newlines (take i s)
newlines-IsBlanked zero h = refl
newlines-IsBlanked (suc i) end = refl
newlines-IsBlanked (suc i) (kept c h) = ground (arith, newlines-IsBlanked i h)
newlines-IsBlanked (suc i) (hidden c e h) = ground (arith, newlines-IsBlanked i h)

IsBlanked-IsInPlace : {s t : Text} → IsBlanked s t → IsInPlace s t
unfolding line_of
IsBlanked-IsInPlace h = (h, (length-IsBlanked h, λ i. ap (λ n. n + 1) (newlines-IsBlanked i h)))

blank_span-IsBlanked : (at : ℕ) (span : Span) (s : Text) → IsBlanked s (blank_span at span s)
unfolding blank_span
blank_span-IsBlanked at span [] = end
blank_span-IsBlanked at span (c ∷ s) =
    let rest = blank_span-IsBlanked (at + 1) span s in
    elim (Bool-cases (leb span.0 at && ltb at (span.0 + span.1))) [
      | inl within ↦ rw within (IsBlanked-blanked c rest)
      | inr outside ↦ rw outside (kept c rest)
    ]

strip_go_comments-IsBlanked :
    (spans : List Span) (s : Text) → IsBlanked s (strip_go_comments spans s)
unfolding strip_go_comments
strip_go_comments-IsBlanked [] s = IsBlanked-refl s
strip_go_comments-IsBlanked (span ∷ spans) s =
    IsBlanked-trans (blank_span-IsBlanked 0 span s)
      (strip_go_comments-IsBlanked spans (blank_span 0 span s))

strip_templ_from-IsBlanked :
    (left : ℕ) (line_start : Bool) (s : Text) → IsBlanked s (strip_templ_from left line_start s)
unfolding strip_templ_from
strip_templ_from-IsBlanked left line_start [] = end
strip_templ_from-IsBlanked (suc left) line_start (c ∷ s) =
    IsBlanked-blanked c (strip_templ_from-IsBlanked left line_start s)
strip_templ_from-IsBlanked zero line_start (c ∷ s) =
    elim (ℕ-cases (comment_length line_start (c ∷ s))) [
      | inl none_here ↦
          rw (none_here, strip_templ_from)
            (kept c (strip_templ_from-IsBlanked zero (starts_line c line_start) s))
      | inr (left, opens) ↦
          rw (opens, strip_templ_from)
            (IsBlanked-blanked c (strip_templ_from-IsBlanked left line_start s))
    ]

-- Blanking the comments, of a Go source by whatever spans the scanner reports or of a templ source,
-- changes nothing but characters into spaces, and no newline: the length stays, and every offset is
-- in the line that it was in.
pub strip-IsInPlace :
    (spans : List Span) (content : Text)
    → IsInPlace content (strip_go_comments spans content)
      × IsInPlace content (strip_templ_comments content)
unfolding strip_templ_comments
strip-IsInPlace spans content = (
  IsBlanked-IsInPlace (strip_go_comments-IsBlanked spans content),
  IsBlanked-IsInPlace (strip_templ_from-IsBlanked 0 true content),
)
