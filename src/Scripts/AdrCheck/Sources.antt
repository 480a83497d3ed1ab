-- ===== src/Scripts/AdrCheck/Sources.antt =====
-- The checks of scripts/adrcheck/main.go on Go and templ sources: what each searches for, where, and
-- what it skips.
use go_performance_starter.Prelude.{
  ℕ, Bool, true, false, ◌&&◌, ◌||◌, not, List, [], ◌∷◌, ◌++◌, Option, none, some, if◌then◌else◌,
  ◌==◌,
}
use go_performance_starter.Prelude.Text.{Text, codes, text_eq, has_prefix}
use go_performance_starter.Prelude.Search.{contains, has_suffix}
use go_performance_starter.Prelude.Pattern.{
  Pattern, one, folded, exactly, both, edge, in_turn, one_of, some_of, maybe, is_blank, is_inline,
}
use go_performance_starter.Scripts.AdrCheck.{
  Node, Met, walk_dir, walk_go_files, read_file, descend, is_there, skip_nothing,
}
use go_performance_starter.Scripts.AdrCheck.Comments.{strip_go_comments, strip_templ_comments}
use go_performance_starter.Scripts.AdrCheck.Messages.{Parsers, located, report, each}

abbrev anything : ℕ → Bool
anything c = true

abbrev not_blank : ℕ → Bool
not_blank c = not (is_blank c)

abbrev is_quote : ℕ → Bool
is_quote c = c == b'"' || c == b'`'

abbrev blanks : Pattern
blanks = some_of is_blank

-- sqlLiteralRe
abbrev sql_literal_re : Pattern
sql_literal_re = both (one is_quote) (
    one_of
      (in_turn (
        folded (codes "select")
        ∷ blanks
        ∷ some_of is_inline
        ∷ blanks
        ∷ folded (codes "from")
        ∷ one is_blank
        ∷ []))
      (in_turn (folded (codes "insert") ∷ blanks ∷ folded (codes "into") ∷ one is_blank ∷ [])
        ∷ in_turn (
            folded (codes "update")
            ∷ blanks
            ∷ some_of not_blank
            ∷ blanks
            ∷ folded (codes "set")
            ∷ one is_blank
            ∷ [])
        ∷ in_turn (folded (codes "delete") ∷ blanks ∷ folded (codes "from") ∷ one is_blank ∷ [])
        ∷ []))

-- envReadRe
abbrev env_read_re : Pattern
env_read_re = in_turn (
    edge
    ∷ exactly (codes "os.")
    ∷ one_of (exactly (codes "Getenv")) (exactly (codes "LookupEnv") ∷ [])
    ∷ exactly (codes "(")
    ∷ [])

-- logPrintRe
abbrev log_print_re : Pattern
log_print_re = in_turn (
    edge
    ∷ exactly (codes "log.Print")
    ∷ maybe (one_of (exactly (codes "f")) (exactly (codes "ln") ∷ []))
    ∷ exactly (codes "(")
    ∷ [])

-- copBypassRe
abbrev cop_bypass_re : Pattern
cop_bypass_re = in_turn (
    exactly (codes ".")
    ∷ one_of (exactly (codes "AddInsecureBypassPattern")) (exactly (codes "AddTrustedOrigin") ∷ [])
    ∷ exactly (codes "(")
    ∷ [])

-- untypedPropsRe
abbrev untyped_props_re : Pattern
untyped_props_re =
    both (exactly (codes "map[string]"))
      (one_of (exactly (codes "interface{}")) (exactly (codes "any") ∷ []))

abbrev is_driver : Text → Bool
is_driver path =
    has_prefix path (codes "github.com/jackc/pgx") || text_eq path (codes "database/sql")

unfoldable pub driver_imports : Text → List (Text × ℕ) → List Text
unfolding has_prefix text_eq located
driver_imports rel [] = []
driver_imports rel ((path, line) ∷ imports) =
    let rest = driver_imports rel imports in
    if is_driver path
    then located rel line (codes "handler imports a database driver (" ++ path ++ codes ")") ∷ rest
    else rest

module _ (parsers : Parsers) where
  unfoldable pub check_no_sql_in_handlers : Node → List Text
  unfolding walk_go_files report strip_go_comments driver_imports
  check_no_sql_in_handlers root =
      each
        (λ source.
          report sql_literal_re (codes "hand-written SQL string literal") source.0 source.1
            (strip_go_comments (parsers.comments source.1) source.1)
          ++ driver_imports source.0 (parsers.imports source.1))
        (walk_go_files root (codes "internal" ∷ codes "handler" ∷ []) false)

  -- The sources of several directories, one directory after the other.
  unfoldable each_source : Node → Bool → (Text × Text → List Text) → List Text → List Text
  unfolding walk_go_files
  each_source root include_tests check [] = []
  each_source root include_tests check (dir ∷ dirs) =
      each check (walk_go_files root (dir ∷ []) include_tests)
      ++ each_source root include_tests check dirs

  abbrev is_env_free : Text → Bool
  is_env_free rel =
      text_eq rel (codes "cmd/api/main.go") || has_prefix rel (codes "internal/config/")

  unfoldable pub env_reads : Text × Text → List Text
  unfolding text_eq has_prefix report strip_go_comments
  env_reads source =
      if is_env_free source.0
      then []
      else report env_read_re (codes "environment read outside internal/config") source.0 source.1
          (strip_go_comments (parsers.comments source.1) source.1)

  abbrev ignores_env : Option Text → Bool
  ignores_env none = false
  ignores_env (some content) = contains content (codes ".env")

  unfoldable pub check_env_only_config : Node → List Text
  unfolding each_source env_reads contains read_file descend
  check_env_only_config root =
      each_source root false env_reads (codes "cmd" ∷ codes "internal" ∷ [])
      ++ (if is_there (descend (some root) (codes ".env.example" ∷ []))
          then []
          else codes ".env.example missing at repo root" ∷ [])
      ++ (if ignores_env (read_file root (codes ".gitignore" ∷ []))
          then []
          else codes ".gitignore does not ignore .env" ∷ [])

  unfoldable pub template_import : Text → List (Text × ℕ) → List Text
  unfolding text_eq located
  template_import rel [] = []
  template_import rel ((path, line) ∷ imports) =
      let rest = template_import rel imports in
      if text_eq path (codes "html/template")
      then located rel line (codes "imports html/template") ∷ []
      else rest

  unfoldable pub check_no_html_template : Node → List Text
  unfolding each_source template_import
  check_no_html_template root =
      each_source root true (λ source. template_import source.0 (parsers.imports source.1))
        (codes "cmd" ∷ codes "internal" ∷ codes "scripts" ∷ [])

  -- What each file of internal/view is searched in: a Go source or a templ source without comments.
  unfoldable pub props_in : Met → List Text
  unfolding has_suffix report strip_go_comments strip_templ_comments
  props_in m =
      let templ = has_suffix m.name (codes ".templ") in
      let go = has_suffix m.name (codes ".go") && not (has_suffix m.name (codes "_templ.go")) in
      elim m.content [
        | none ↦ []
        | some content ↦
            if go || templ
            then report untyped_props_re (codes "untyped props map in internal/view") m.path content
                (if templ
                  then strip_templ_comments content
                  else strip_go_comments (parsers.comments content) content)
            else []
      ]

  unfoldable each_met : List Met → List Text
  unfolding props_in
  each_met [] = []
  each_met (m ∷ met) = props_in m ++ each_met met

  unfoldable pub check_typed_view_props : Node → List Text
  unfolding each_met walk_dir
  check_typed_view_props root =
      each_met (walk_dir skip_nothing root (codes "internal" ∷ codes "view" ∷ []))

  abbrev mentions : Text → Option Text → Bool
  mentions what none = false
  mentions what (some content) = contains content what

  unfoldable pub check_slog_only : Node → List Text
  unfolding each_source report strip_go_comments contains read_file
  check_slog_only root =
      (if mentions (codes "rs/zerolog") (read_file root (codes "go.mod" ∷ []))
        then codes "go.mod: github.com/rs/zerolog is retired (ADR-026)" ∷ []
        else [])
      ++ each_source root false
          (λ source.
            report log_print_re (codes "log.Print* call site — use log/slog") source.0 source.1
              (strip_go_comments (parsers.comments source.1) source.1))
          (codes "cmd" ∷ codes "internal" ∷ [])

  unfoldable pub check_no_cop_bypass : Node → List Text
  unfolding each_source report strip_go_comments
  check_no_cop_bypass root =
      each_source root false
        (λ source.
          report cop_bypass_re (codes "CrossOriginProtection bypass configured") source.0 source.1
            (strip_go_comments (parsers.comments source.1) source.1))
        (codes "cmd" ∷ codes "internal" ∷ [])
