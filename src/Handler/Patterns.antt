-- ===== src/Handler/Patterns.antt =====
-- internal/handler/patterns_handlers.go: the demo API of the pattern showcase. Query, path and form
-- values are arguments; what is rendered is a value. strings.ToLower is a parameter.
pub mod Scroll
mod Tests
use go_performance_starter.Prelude.{
  ℕ, zero, suc, ◌+◌, ◌-◌, ◌*◌, ◌%◌, ◌^◌, min, Bool, true, false, not, ◌||◌, Option, none, some,
  List, [], ◌∷◌, ◌++◌, ltb, leb, ◌==◌, if◌then◌else◌, length, take, drop,
}
use go_performance_starter.Prelude.Text.{Text, codes, text_eq, trim_space}
use go_performance_starter.Prelude.Search.{contains}
use go_performance_starter.Http.{ℤ, pos, negsuc, is_empty}
use go_performance_starter.Config.{atoi}

-- patternStubData
abbrev pub pattern_stub_data : List Text
pattern_stub_data =
    codes "Go 1.27"
    ∷ codes "Chi router"
    ∷ codes "templ"
    ∷ codes "HTMX"
    ∷ codes "Alpine.js"
    ∷ codes "Tailwind CSS"
    ∷ codes "PostgreSQL"
    ∷ codes "sqlc"
    ∷ codes "pgx"
    ∷ codes "Supabase Auth"
    ∷ codes "Row Level Security"
    ∷ codes "golang-migrate"
    ∷ codes "Taskfile"
    ∷ codes "golangci-lint"
    ∷ codes "Prometheus"
    ∷ codes "Fly.io"
    ∷ codes "Docker"
    ∷ codes "GitHub Actions"
    ∷ codes "air (live reload)"
    ∷ codes "gofmt"
    ∷ []

-- patternScrollPerPage
abbrev pub pattern_scroll_per_page : ℕ
pattern_scroll_per_page = 5

-- patternGroups, of categories and sections that are known by a slug: the sections of each category
abbrev Sections : Type 0
Sections = List (Text × Text)

unfoldable pub sections_of : Text → Sections → List Text
unfolding text_eq
sections_of category [] = []
sections_of category ((slug, of_category) ∷ catalog) =
    let rest = sections_of category catalog in
    if text_eq of_category category then slug ∷ rest else rest

unfoldable pub pattern_groups : List Text → Sections → List (Text × List Text)
unfolding sections_of
pattern_groups [] catalog = []
pattern_groups (category ∷ categories) catalog =
    (category, sections_of category catalog) ∷ pattern_groups categories catalog

module _ (to_lower : Text → Text) where
  unfoldable pub containing : Text → List Text → List Text
  unfolding contains
  containing q [] = []
  containing q (item ∷ items) =
      let rest = containing q items in if contains (to_lower item) q then item ∷ rest else rest

  -- filterPatternStubData
  unfoldable pub filter_pattern_stub_data : Text → List Text
  unfolding trim_space containing
  filter_pattern_stub_data text =
      let q = to_lower (trim_space text) in
      if is_empty q then [] else containing q pattern_stub_data

  -- PatternSearch and PatternTypeahead: the query and its results; an empty fragment is `none`
  unfoldable pub pattern_search : Text → Option (Text × List Text)
  unfolding trim_space filter_pattern_stub_data
  pattern_search query =
      let q = trim_space query in if is_empty q then none else some (q, filter_pattern_stub_data q)

-- PatternEditSave: the value that is displayed
unfoldable pub pattern_edit_save : Text → Text
unfolding trim_space
pattern_edit_save value =
    let trimmed = trim_space value in
    if is_empty trimmed then codes "(nothing entered)" else trimmed

-- PatternFavorite: the new state
unfoldable pub pattern_favorite : Text → Bool
unfolding text_eq
pattern_favorite favorited = not (text_eq favorited (codes "true"))

-- partials.PatternScrollProps, or a panic: a slice with a negative bound. The next page is the pattern
-- of an int of 64 bits.
pub data ScrollPage (A : Type 0) : Type 0 where
  panics : ScrollPage A
  scroll_page : (items : List A) (next_page : ℕ) → ScrollPage A

-- An int of 64 bits as its pattern: (page - 1) * perPage, for a page that is positive.
abbrev pub offset_bits : (page per_page : ℕ) → ℕ
offset_bits page per_page = ((page - 1) * per_page) % 2 ^ 64

abbrev pub is_negative : ℕ → Bool
is_negative bits = leb (2 ^ 63) bits

module _ {A : Type 0} where
  -- From a start that is not negative, and the pattern of start + perPage.
  abbrev pub page_to : List A → (page start stop : ℕ) → ScrollPage A
  page_to data' page start stop =
      let end = min stop (length data') in
      if is_negative stop
      then panics
      else scroll_page (take (end - start) (drop start data'))
          (if end == length data' then 0 else (page + 1) % 2 ^ 64)

  -- The slice of PatternScroll: min of a negative number and the length is that number.
  unfoldable pub scroll_at : List A → (per_page page : ℕ) → ScrollPage A
  scroll_at data' per_page page =
      let bits = offset_bits page per_page in
      let start = min bits (length data') in
      if is_negative bits then panics else page_to data' page start ((start + per_page) % 2 ^ 64)

-- The page of the query: Atoi without an error, and positive.
abbrev pub requested_page : Option ℤ → ℕ
requested_page none = 1
requested_page (some (negsuc n)) = 1
requested_page (some (pos zero)) = 1
requested_page (some (pos (suc n))) = suc n

-- PatternScroll
unfoldable pub pattern_scroll : Text → ScrollPage Text
unfolding atoi scroll_at
pattern_scroll query =
    scroll_at pattern_stub_data pattern_scroll_per_page (requested_page (atoi query))

-- PatternToast: the type in the header HX-Toast-Type
unfoldable pub pattern_toast : Text → Text
unfolding text_eq
pattern_toast toast_type =
    if text_eq toast_type (codes "error") || text_eq toast_type (codes "warning")
    then toast_type
    else codes "success"

-- patternTabs
unfoldable pub pattern_tab : Text → Option Text
unfolding text_eq
pattern_tab name =
    if text_eq name (codes "templ")
    then some (
        codes
          "templ compiles these panels to type-checked Go — a bad prop is a build error, not a runtime surprise.")
    else if text_eq name (codes "htmx")
    then some (
        codes
          "HTMX fetched this panel with one attribute. The server rendered it; no client router, no JSON glue.")
    else if text_eq name (codes "alpine")
    then some (
        codes
          "Alpine covers what stays client-only — the source tabs next to each demo are an x-show, no round trip.")
    else none

-- What `count, _ := strconv.Atoi(s)` leaves, but for numbers out of range: those of PatternCounter
-- count as 0, as a text that is no number does.
abbrev within : Option ℤ → ℕ
within none = 0
within (some (negsuc n)) = 0
within (some (pos n)) = n

-- PatternCounter: the count that is shown
unfoldable pub pattern_counter : Text → ℕ
unfolding atoi
pattern_counter count = let n = within (atoi count) in if ltb 1000000 n then 1 else n + 1

-- PatternSlow: the delay in milliseconds
abbrev delay_of : Option ℤ → ℕ
delay_of none = 800
delay_of (some (negsuc n)) = 800
delay_of (some (pos n)) = n

unfoldable pub pattern_slow : Text → ℕ
unfolding atoi
pattern_slow delay = min (delay_of (atoi delay)) 1500
