-- ===== src/Scripts/AdrCheck/Walking.antt =====
-- The walk over the Go sources meets exactly the files that it promises.
mod Names
pub use Names.*
use go_performance_starter.Prelude.{
  not, ◌&&◌, ◌||◌, ◌∙◌, arith, Bool, true, false, List, [], ◌∷◌, ◌++◌, Option, none, some, ◌≡◌,
  refl, ap, sym, subst, ◌↔◌, ◌⊎◌, inl, inr, Bool-cases,
}
use go_performance_starter.Prelude.Text.{Text, codes, text_eq, text_eq_iff, text_eq_refl}
use go_performance_starter.Prelude.Search.{has_suffix}
use go_performance_starter.Scripts.AdrCheck.{
  Node, file, folder, locked, Entries, nil, entry, Met, join, walk, walk_entries, walk_found,
  walk_dir, descend, path_of, last_name, skip_dirs, one_of_names, is_go_source, go_sources,
  walk_go_files, readable,
}

-- The file `m` lies in the tree, and no directory on the way to it, the first one included, has one of
-- the names to skip.
mutual
  pub data Lies (skips : List Text) : Text → Text → Node → Met → Type 0 where
    itself :
        (path name : Text) (content : Option Text)
        → Lies skips path name
            (file content)
            (record { path = path; name = name; content = content })
    below :
        (path name : Text) (entries : Entries) {m : Met}
        → ¬ In name skips
        → LiesIn skips path entries m
        → Lies skips path name (folder entries) m

  pub data LiesIn (skips : List Text) : Text → Entries → Met → Type 0 where
    first :
        (path name : Text) (node : Node) (rest : Entries) {m : Met}
        → Lies skips (join path name) name node m
        → LiesIn skips path (entry name node rest) m
    later :
        (path name : Text) (node : Node) (rest : Entries) {m : Met}
        → LiesIn skips path rest m
        → LiesIn skips path (entry name node rest) m

mutual
  unfolding walk

  walk-Lies :
      (names : List Text) (path name : Text) (node : Node) {m : Met}
      → In m (walk (one_of_names names) path name node)
      → Lies names path name node m
  walk-Lies names path name (file content) here = itself path name content
  walk-Lies names path name (file content) (there _ i) = elim i [ ]
  walk-Lies names path name (folder entries) i = elim (Bool-cases (one_of_names names name)) [
    | inl skipped ↦ elim (rw (skipped, walk) at i) [ ]
    | inr entered ↦
        below path name entries (not_one_of names name entered)
          (walk_entries-LiesIn names path entries (rw (entered, walk) at i))
  ]
  walk-Lies names path name locked i = elim i [ ]

  walk_entries-LiesIn :
      (names : List Text) (path : Text) (entries : Entries) {m : Met}
      → In m (walk_entries (one_of_names names) path entries)
      → LiesIn names path entries m
  walk_entries-LiesIn names path nil i = elim i [ ]
  walk_entries-LiesIn names path (entry name node rest) i =
      elim (In-cases (walk (one_of_names names) (join path name) name node) i) [
        | inl now ↦ first path name node rest (walk-Lies names (join path name) name node now)
        | inr others ↦ later path name node rest (walk_entries-LiesIn names path rest others)
      ]

mutual
  unfolding walk

  Lies-walk :
      {names : List Text} {path name : Text} {node : Node} {m : Met}
      → Lies names path name node m
      → In m (walk (one_of_names names) path name node)
  Lies-walk (itself path name content) = here
  Lies-walk {names} (below path name entries entered l) =
      rw (not_In names name entered, walk) (LiesIn-walk_entries l)

  LiesIn-walk_entries :
      {names : List Text} {path : Text} {entries : Entries} {m : Met}
      → LiesIn names path entries m
      → In m (walk_entries (one_of_names names) path entries)
  LiesIn-walk_entries {names} (first path name node rest l) =
      In-left (walk_entries (one_of_names names) path rest) (Lies-walk l)
  LiesIn-walk_entries {names} (later path name node rest l) =
      In-right (walk (one_of_names names) (join path name) name node) (LiesIn-walk_entries l)

-- A Go source that can be read, of those that a walk met; first as the code tells it.
abbrev IsTaken : Bool → Met → Text × Text → Type 0
IsTaken include_tests m source =
    (is_go_source include_tests m.name ≡ true) × ((m.path ≡ source.0) × (m.content ≡ some source.1))

abbrev pub IsSource : Bool → Met → Text × Text → Type 0
IsSource include_tests m source =
    IsGoSource include_tests m.name × ((m.path ≡ source.0) × (m.content ≡ some source.1))

readable-In :
    (b : Bool) (m : Met) (c : Option Text) {source : Text × Text}
    → In source (readable b m c)
    → (b ≡ true) × ((m.path ≡ source.0) × (c ≡ some source.1))
readable-In true m (some content) here = (refl, (refl, refl))
readable-In true m (some content) (there _ i) = elim i [ ]
readable-In true m none i = elim i [ ]
readable-In false m c i = elim i [ ]

In-readable :
    (b : Bool) (m : Met) (c : Option Text) (source : Text × Text)
    → (b ≡ true) × ((m.path ≡ source.0) × (c ≡ some source.1))
    → In source (readable b m c)
In-readable b m c source (is, (at, has)) =
    rw (is, has) (subst (λ path. In source ((path, source.1) ∷ [])) (sym at) here)

go_sources-In :
    (include_tests : Bool) (met : List Met) (source : Text × Text)
    → In source (go_sources include_tests met)
    → (m : Met) × In m met × IsTaken include_tests m source
unfolding go_sources
go_sources-In include_tests (m ∷ met) source i =
    elim (In-cases (readable (is_go_source include_tests m.name) m m.content) i) [
      | inl now ↦ (m, here, readable-In (is_go_source include_tests m.name) m m.content now)
      | inr others ↦
          let (n, held, is) = go_sources-In include_tests met source others in (n, there m held, is)
    ]
go_sources-In include_tests [] source i = elim i [ ]

In-go_sources :
    (include_tests : Bool) (met : List Met) (source : Text × Text) (m : Met)
    → In m met
    → IsTaken include_tests m source
    → In source (go_sources include_tests met)
unfolding go_sources
In-go_sources include_tests [] source m i is = elim i [ ]
In-go_sources include_tests (m ∷ met) source _ here is =
    In-left (go_sources include_tests met)
      (In-readable (is_go_source include_tests m.name) m m.content source is)
In-go_sources include_tests (n ∷ met) source m (there _ i) is =
    In-right (readable (is_go_source include_tests n.name) n n.content)
      (In-go_sources include_tests met source m i is)

-- A directory below the root is walked to the files that lie below it, and the checks of Go sources
-- see of them exactly those whose name ends in .go and not in _templ.go, nor in _test.go where tests
-- are left out, and whose content can be read, under their path from the root. Nothing below a
-- directory with the name node_modules, vendor, tmp, dist, .git or .claude is among them, nor
-- anything where the directory to walk has such a name.
pub walk_go_files_iff :
    (root : Node) (dir : List Text) (include_tests : Bool) (node : Node) (source : Text × Text)
    → descend (some root) dir ≡ some node
    → In source (walk_go_files root dir include_tests) ↔ (
        (m : Met) × Lies names_to_skip (path_of [] dir) (last_name (codes ".") dir) node m
        × IsSource include_tests m source)
unfolding walk_go_files walk_dir
walk_go_files_iff root dir include_tests node source found =
    let start = walk skip_dirs (path_of [] dir) (last_name (codes ".") dir) node in
    let same = ap (λ o. go_sources include_tests (walk_found skip_dirs dir o)) found in
    (
      λ i.
          let (m, held, (taken, rest)) =
            go_sources-In include_tests start source (subst (In source) same i) in
          (
            m,
            walk-Lies names_to_skip _ _ node held,
            (is_go_source-IsGoSource include_tests m.name taken, rest),
          ),
      λ (m, lies, (is, rest)). subst (In source) (sym same) (
          In-go_sources include_tests start source m (Lies-walk lies)
            (IsGoSource-is_go_source include_tests m.name is, rest)),
    )
