-- ===== src/Index/Directory.antt =====
-- server/internal/index/index.go: `IndexDir`. `filepath.WalkDir` is a list of the entries that it
-- visits, each with what reading it gives; it leaves out what is under an entry that is skipped.
use mathlib.Core.Option
use tcl_lsp_nvim.Base.{
  ℕ, ◌+◌, Bool, false, ◌||◌, List, [], ◌∷◌, ◌++◌, Option, none, some, if◌then◌else◌, Bytes, codes,
  eql, ◌>>=◌,
}
use tcl_lsp_nvim.Source.{has_suffix}
use tcl_lsp_nvim.Index.{Index, index_file}

-- An entry that could not be visited, a directory by its name, or a file by its path with what reading it
-- gives, where `none` is an error.
pub data Entry : Type 0 where
  unreadable : Bytes → Entry
  directory : Bytes → Entry
  regular : Bytes → Option Bytes → Entry

-- The table, the paths that failed, and the number of the files indexed.
pub record Walked : Type 0 where
  pub ix : Index
  pub errs : List Bytes
  pub indexed : ℕ

unfoldable pub is_source_file : Bytes → Bool
unfolding has_suffix
is_source_file path = has_suffix path (codes ".tcl") || has_suffix path (codes ".rvt")

abbrev pub note_error : Bytes → Walked → Walked
note_error path w = record w { errs = w.errs ++ path ∷ [] }

abbrev pub index_read : Bytes → Option Bytes → Walked → Option Walked
index_read path none w = some (note_error path w)
index_read path (some content) w =
    Option.map (λ ix. record w { ix = ix; indexed = w.indexed + 1 }) (index_file path content w.ix)

-- The function that the walk calls: whether the directory is skipped, and the new state.
unfoldable pub visit : Entry → Walked → Option (Bool × Walked)
unfolding is_source_file index_file eql
visit (unreadable path) w = some (false, note_error path w)
visit (directory name) w = some (eql name (codes ".git"), w)
visit (regular path read) w =
    if is_source_file path
    then Option.map (λ v. (false, v)) (index_read path read w)
    else some (false, w)

unfoldable pub index_entries : List Entry → Walked → Option Walked
unfolding visit
index_entries [] w = some w
index_entries (e ∷ es) w = visit e w >>= λ r. index_entries es r.1

-- `IndexDir`, with the paths that failed for the error.
unfoldable pub index_dir : List Entry → Index → Option Walked
unfolding index_entries
index_dir es ix = index_entries es (record { ix = ix; errs = []; indexed = 0 })
