-- ===== src/Scripts/AdrCheck/Comments.antt =====
-- stripGoComments, stripTemplComments and lineOf of scripts/adrcheck/main.go: comments are blanked in
-- place, so that offsets and line numbers still point at the source.
pub mod Places
use go_performance_starter.Prelude.{
  ℕ, zero, suc, ◌+◌, ◌<◌, Bool, true, false, ◌&&◌, ◌||◌, List, [], ◌∷◌, Option, none, some, ◌==◌,
  if◌then◌else◌, length, take, ltb, leb,
}
use go_performance_starter.Prelude.Text.{Text, codes, has_prefix}
use go_performance_starter.Prelude.Search.{index}

abbrev pub blanked : ℕ → ℕ
blanked c = if c == b'\n' then c else b' '

-- A comment in a Go source, as go/scanner reports it: where it starts, and how long it is.
abbrev pub Span : Type 0
Span = ℕ × ℕ

-- one pass of the loop of stripGoComments: the bytes from start to start + len(lit)
unfoldable pub blank_span : ℕ → Span → Text → Text
blank_span at span [] = []
blank_span at span (c ∷ s) =
    let rest = blank_span (at + 1) span s in
    if leb span.0 at && ltb at (span.0 + span.1) then blanked c ∷ rest else c ∷ rest

-- stripGoComments, of the comments that the scanner reports
unfoldable pub strip_go_comments : List Span → Text → Text
unfolding blank_span
strip_go_comments [] content = content
strip_go_comments (span ∷ spans) content = strip_go_comments spans (blank_span 0 span content)

abbrev closed_at : Option ℕ → ℕ → ℕ → ℕ
closed_at none closing to_end = to_end
closed_at (some end) closing to_end = end + closing

-- The length of the comment that opens at the front of `rest`, as the three cases of the loop have
-- it; 0 where none does.
unfoldable pub comment_length : Bool → Text → ℕ
unfolding has_prefix index
comment_length line_start rest =
    if has_prefix rest (codes "<!--")
    then closed_at (index rest (codes "-->")) 3 (length rest)
    else if has_prefix rest (codes "/*")
    then closed_at (index rest (codes "*/")) 2 (length rest)
    else if line_start && has_prefix rest (codes "//")
    then closed_at (index rest (codes "\n")) 0 (length rest)
    else 0

-- lineStart behind a byte that is copied
abbrev starts_line : ℕ → Bool → Bool
starts_line c line_start =
    if c == b'\n' then true else if c == b' ' || c == b'\t' || c == b'\r' then line_start else false

-- stripTemplComments from a place on, of whose bytes `left` are still of the last comment
unfoldable pub strip_templ_from : ℕ → Bool → Text → Text
unfolding comment_length
strip_templ_from left line_start [] = []
strip_templ_from (suc left) line_start (c ∷ s) = blanked c ∷ strip_templ_from left line_start s
strip_templ_from zero line_start (c ∷ s) = elim (comment_length line_start (c ∷ s)) [
  | zero ↦ c ∷ strip_templ_from zero (starts_line c line_start) s
  | suc left ↦ blanked c ∷ strip_templ_from left line_start s
]

unfoldable pub strip_templ_comments : Text → Text
unfolding strip_templ_from
strip_templ_comments content = strip_templ_from 0 true content

abbrev newlines : Text → ℕ
newlines [] = 0
newlines (c ∷ s) = (if c == b'\n' then 1 else 0) + newlines s

unfoldable pub line_of : Text → ℕ → ℕ
line_of content idx = newlines (take idx content) + 1
