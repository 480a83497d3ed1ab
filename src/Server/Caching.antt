-- ===== src/Server/Caching.antt =====
-- internal/server/server.go: the Cache-Control header of static files.
pub mod Errors
mod Tests
use go_performance_starter.Prelude.{
  ℕ, ◌+◌, Bool, true, false, not, ◌&&◌, Option, none, some, List, [], ◌∷◌, ◌++◌, ◌==◌, leb, any,
  map, if◌then◌else◌,
}
use go_performance_starter.Prelude.Text.{Text, codes, text_eq}
use go_performance_starter.Http.{is_empty}
use go_performance_starter.Writers.{
  Writer, write_header, write, set_header, Act, sets_header, writes_header, writes,
}

-- path.Ext: from the last dot of the last element; `ext` is what was found so far
unfoldable pub extension_from : Text → Text → Text
extension_from ext [] = ext
extension_from ext (c ∷ path) = elim (c == b'/') [
  | true ↦ extension_from [] path
  | false ↦ elim (c == b'.') [
    | true ↦ extension_from (c ∷ []) path
    | false ↦ elim (is_empty ext) [
      | true ↦ extension_from [] path
      | false ↦ extension_from (ext ++ c ∷ []) path
    ]
  ]
]

-- A character as strings.EqualFold compares it with a small ASCII letter: the long s and the Kelvin
-- sign fold to letters of ASCII.
unfoldable pub fold : ℕ → ℕ
fold c =
    if leb b'A' c && leb c b'Z'
    then c + 32
    else if c == 0x17f
    then b's'
    else if c == 0x212a
    then b'k'
    else c

-- isFileType
unfoldable pub is_file_type : Text → List Text → Bool
is_file_type path extensions =
    any (λ e. text_eq (map fold (extension_from [] path)) (map fold e)) extensions

abbrev pub assets : List Text
assets =
    codes ".css"
    ∷ codes ".js"
    ∷ codes ".png"
    ∷ codes ".jpg"
    ∷ codes ".jpeg"
    ∷ codes ".gif"
    ∷ codes ".svg"
    ∷ codes ".webp"
    ∷ []

abbrev pub fonts : List Text
fonts = codes ".woff" ∷ codes ".woff2" ∷ codes ".ttf" ∷ codes ".otf" ∷ codes ".eot" ∷ []

abbrev pub one_year : Text
one_year = codes "public, max-age=31536000"

abbrev pub one_hour : Text
one_hour = codes "public, max-age=3600"

abbrev pub no_store : Text
no_store = codes "no-store"

-- The policy that is decided up front from the path.
unfoldable pub cache_policy : Text → Text
cache_policy path =
    if is_file_type path assets
    then one_year
    else if is_file_type path fonts
    then one_year
    else one_hour

-- errorUncachedWriter
pub record ErrorUncachedWriter : Type 0 where
  pub inner : Writer
  pub wrote_header : Bool

abbrev downgrade : Writer → ℕ → Writer
downgrade w status = if leb 400 status then set_header w "Cache-Control" no_store else w

-- WriteHeader
unfoldable pub uncached_write_header : ErrorUncachedWriter → ℕ → ErrorUncachedWriter
uncached_write_header w status =
    if w.wrote_header
    then record w { inner = write_header w.inner status }
    else record { inner = write_header (downgrade w.inner status) status; wrote_header = true }

-- Write
unfoldable pub uncached_write : ErrorUncachedWriter → List ℕ → ErrorUncachedWriter
uncached_write w bytes =
    let w' = if w.wrote_header then w else uncached_write_header w 200 in
    record w' { inner = write w'.inner bytes }

-- A handler's calls on the wrapper; Header() is the inner writer's.
unfoldable pub act : ErrorUncachedWriter → Act → ErrorUncachedWriter
act w (sets_header name value) = record w { inner = set_header w.inner name value }
act w (writes_header status) = uncached_write_header w status
act w (writes bytes) = uncached_write w bytes

unfoldable pub act_all : ErrorUncachedWriter → List Act → ErrorUncachedWriter
act_all w [] = w
act_all w (a ∷ acts) = act_all (act w a) acts

-- cacheControlWrapper, with a handler that makes these calls
unfoldable pub cache_control_wrapper : Text → List Act → Writer → Writer
cache_control_wrapper path acts w =
    (act_all
      (record { inner = set_header w "Cache-Control" (cache_policy path); wrote_header = false })
      acts).inner
