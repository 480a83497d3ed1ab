-- ===== src/Scripts/AdrCheck.antt =====
-- The file system as scripts/adrcheck/main.go sees it, and its walk over the Go sources
-- (walkGoFiles). Symbolic links are left out.
pub mod Comments
pub mod Walking
pub mod Messages
pub mod Checks
pub mod Sources
pub mod Secrets
pub mod Suite
pub mod Tests
use go_performance_starter.Prelude.{
  Bool, true, false, ◌&&◌, ◌||◌, not, List, [], ◌∷◌, ◌++◌, Option, none, some, if◌then◌else◌,
}
use go_performance_starter.Prelude.Text.{Text, codes, text_eq}
use go_performance_starter.Prelude.Search.{has_suffix}

-- A file or a directory that cannot be read has no content.
mutual
  pub data Node : Type 0 where
    file : Option Text → Node
    folder : Entries → Node
    locked : Node

  -- in the order of os.ReadDir and filepath.WalkDir, by name
  pub data Entries : Type 0 where
    nil : Entries
    entry : Text → Node → Entries → Entries

-- filepath.Join of a path below the root and a name
unfoldable pub join : Text → Text → Text
join [] name = name
join (c ∷ path) name = (c ∷ path) ++ b'/' ∷ name

-- A file that a walk meets: its path below the root, its name, its content.
pub record Met : Type 0 where
  pub path : Text
  pub name : Text
  pub content : Option Text

-- filepath.WalkDir where the function returns SkipDir on the directories of these names, and nil
-- on everything else.
unfoldable mutual
  pub walk : (Text → Bool) → Text → Text → Node → List Met
  walk skips path name (file content) = record { path = path; name = name; content = content } ∷ []
  walk skips path name (folder entries) = if skips name then [] else walk_entries skips path entries
  walk skips path name locked = []

  pub walk_entries : (Text → Bool) → Text → Entries → List Met
  walk_entries skips path nil = []
  walk_entries skips path (entry name node rest) =
      walk skips (join path name) name node ++ walk_entries skips path rest

abbrev child : Entries → Text → Option Node
child nil name = none
child (entry n node rest) name = elim (text_eq n name) [
  | true ↦ some node
  | false ↦ child rest name
]

-- The node at a path from the root, name by name.
unfoldable pub descend : Option Node → List Text → Option Node
unfolding text_eq
descend node [] = node
descend (some (folder entries)) (name ∷ names) = descend (child entries name) names
descend other (name ∷ names) = none

abbrev content_of : Option Node → Option Text
content_of (some (file content)) = content
content_of other = none

-- os.ReadFile
unfoldable pub read_file : Node → List Text → Option Text
unfolding descend
read_file root names = content_of (descend (some root) names)

abbrev listing_of : Option Node → Option Entries
listing_of (some (folder entries)) = some entries
listing_of other = none

-- os.ReadDir
unfoldable pub read_dir : Node → List Text → Option Entries
unfolding descend
read_dir root names = listing_of (descend (some root) names)

-- os.Stat without an error
abbrev pub is_there : Option Node → Bool
is_there none = false
is_there (some node) = true

abbrev pub last_name : Text → List Text → Text
last_name name [] = name
last_name _ (name ∷ names) = last_name name names

abbrev pub path_of : Text → List Text → Text
path_of path [] = path
path_of path (name ∷ names) = path_of (join path name) names

abbrev pub walk_found : (Text → Bool) → List Text → Option Node → List Met
walk_found skips names none = []
walk_found skips names (some node) =
    walk skips (path_of [] names) (last_name (codes ".") names) node

-- filepath.WalkDir from a path below the root
unfoldable pub walk_dir : (Text → Bool) → Node → List Text → List Met
unfolding walk join descend
walk_dir skips root names = walk_found skips names (descend (some root) names)

unfoldable pub one_of_names : List Text → Text → Bool
unfolding text_eq
one_of_names [] name = false
one_of_names (n ∷ names) name = text_eq n name || one_of_names names name

-- skipDirs
abbrev pub skip_dirs : Text → Bool
skip_dirs = one_of_names (
    codes "node_modules"
    ∷ codes "vendor"
    ∷ codes "tmp"
    ∷ codes "dist"
    ∷ codes ".git"
    ∷ codes ".claude"
    ∷ [])

-- filepath.WalkDir without SkipDir
abbrev pub skip_nothing : Text → Bool
skip_nothing name = false

-- The tests of walkGoFiles on a name.
unfoldable pub is_go_source : Bool → Text → Bool
unfolding has_suffix
is_go_source include_tests name =
    has_suffix name (codes ".go")
    && not (has_suffix name (codes "_templ.go"))
    && (include_tests || not (has_suffix name (codes "_test.go")))

abbrev pub readable : Bool → Met → Option Text → List (Text × Text)
readable true m (some content) = (m.path, content) ∷ []
readable _ m _ = []

unfoldable pub go_sources : Bool → List Met → List (Text × Text)
unfolding is_go_source
go_sources include_tests [] = []
go_sources include_tests (m ∷ met) =
    readable (is_go_source include_tests m.name) m m.content ++ go_sources include_tests met

-- walkGoFiles: the paths and contents that it calls `fn` with, in order
unfoldable pub walk_go_files : Node → List Text → Bool → List (Text × Text)
unfolding one_of_names walk_dir go_sources
walk_go_files root dir include_tests = go_sources include_tests (walk_dir skip_dirs root dir)
