-- ===== src/Tests/Indexing.antt =====
-- The analyses by file kind, and the workspace index, at small files.
use mathlib.Core.Option
use tcl_lsp_nvim.Base.{none, ℕ, List, [], ◌∷◌, ◌≡◌, some, refl, map, Bytes, codes, All}
use tcl_lsp_nvim.Syntax.{global_ns}
use tcl_lsp_nvim.Defs.{def_proc, Definition}
use tcl_lsp_nvim.Files.{ContextRef, FileIndex}
use tcl_lsp_nvim.Source.{is_rvt, refs, index_unit}
use tcl_lsp_nvim.Source.Coordinates.{IsSourceRef, refs-IsSourceRef}
use tcl_lsp_nvim.Source.Units.{HasParts, index_unit-HasParts}
use tcl_lsp_nvim.Index.Directory.{Entry, directory, regular, index_dir}
use tcl_lsp_nvim.Index.{
  Index, new_index, note_name, remove_file, filter_locs, index_file, lookup_name, edges_of,
}
use tcl_lsp_nvim.Index.Merging.{merged, namespace_of}
use tcl_lsp_nvim.Index.Memo.{
  IsMemoized, namespace_of-IsMemoized, remove_file-IsMemoized, index_file-IsMemoized,
}
use tcl_lsp_nvim.Index.Tracked.{IsTracked, new_index-IsTracked, note_name-IsTracked}
use tcl_lsp_nvim.Index.Lookups.{IsIndexed, lookup_name-remove_file, index_file-IsIndexed}

abbrev page : Bytes
page = codes "<p><? f $x ?></p>"

-- The wrapper's `namespace` is dropped, and the rest is at its offsets in the template.
refs_page : Option.map (map (λ r. r.ref.start)) (refs (codes "a.rvt") page) ≡ some (6 ∷ 8 ∷ [])
unfolding refs Option.bind
refs_page = refl

refs-IsSourceRef_example :
    (rs : List ContextRef) × (refs (codes "a.rvt") page ≡ some rs)
    × All (IsSourceRef (is_rvt (codes "a.rvt")) page) rs
refs-IsSourceRef_example = refs-IsSourceRef (codes "a.rvt") page

abbrev blank : Bytes
blank = codes "<? ?>"

abbrev nothing_found : FileIndex
nothing_found = record { defs = []; refs = []; namespaces = []; classes = [] }

index_unit-blank : index_unit (codes "a.rvt") blank ≡ some nothing_found
unfolding index_unit Option.bind
index_unit-blank = refl

index_unit-HasParts_example : HasParts (codes "a.rvt") blank nothing_found
index_unit-HasParts_example =
    index_unit-HasParts (codes "a.rvt") blank nothing_found index_unit-blank

abbrev p_def : Definition
p_def = record {
  kind = def_proc;
  name = codes "::p";
  namespace = global_ns;
  name_start = 5;
  name_end = 6;
  full_start = 0;
  full_end = 12;
  scope = 0;
  origin = [];
  class = [];
}

-- A table with one file, which defines `::p`.
abbrev one_file : Index
one_file = note_name (codes "b.tcl") p_def new_index

one_file-IsTracked : IsTracked one_file
one_file-IsTracked = note_name-IsTracked (codes "b.tcl") p_def new_index new_index-IsTracked

lookup_name-remove_file_example :
    lookup_name (codes "::p") (remove_file (codes "b.tcl") one_file)
    ≡ filter_locs (lookup_name (codes "::p") one_file) (codes "b.tcl")
lookup_name-remove_file_example =
    lookup_name-remove_file (codes "b.tcl") (codes "::p") one_file one_file-IsTracked

index_file-IsIndexed_example :
    (jx : Index) × (index_file (codes "a.rvt") blank one_file ≡ some jx)
    × IsIndexed (codes "a.rvt") nothing_found one_file jx
index_file-IsIndexed_example =
    index_file-IsIndexed (codes "a.rvt") blank nothing_found one_file one_file-IsTracked
      index_unit-blank

abbrev class_text : Bytes
class_text = codes "itcl::class C {inherit B}"

-- Two files declare one inherit edge; when the first is removed the edge is gone, though the second
-- declares it still.
edge_lost :
    Option.map
      (λ ix. edges_of (codes "::C") (remove_file (codes "a.tcl") ix))
      (Option.bind
        (index_file (codes "a.tcl") class_text new_index)
        (index_file (codes "b.tcl") class_text))
    ≡ some []
unfolding index_file remove_file Option.bind
edge_lost = refl

-- The sort of at most one path.
abbrev sort_one : List Bytes → List Bytes
sort_one files = files

abbrev cleared_table : Index
cleared_table = remove_file (codes "a.tcl") one_file

namespace_of-IsMemoized_example :
    ((namespace_of sort_one global_ns cleared_table).0 ≡ merged sort_one global_ns cleared_table)
    × IsMemoized sort_one (namespace_of sort_one global_ns cleared_table).1
namespace_of-IsMemoized_example =
    namespace_of-IsMemoized sort_one global_ns cleared_table
      (remove_file-IsMemoized sort_one (codes "a.tcl") one_file)

index_file-IsMemoized_example :
    (jx : Index) × (index_file (codes "a.rvt") blank one_file ≡ some jx) × IsMemoized sort_one jx
index_file-IsMemoized_example =
    index_file-IsMemoized sort_one (codes "a.rvt") blank one_file nothing_found index_unit-blank

abbrev walked_entries : List Entry
walked_entries =
    directory (codes ".git")
    ∷ regular (codes "a.tcl") (some (codes "proc p {} {}"))
    ∷ regular (codes "b.tcl") none
    ∷ regular (codes "c.txt") (some (codes "proc q {} {}"))
    ∷ []

index_dir-counts :
    Option.map {B = List Bytes × ℕ} (λ w. (w.errs, w.indexed)) (index_dir walked_entries new_index)
    ≡ some (codes "b.tcl" ∷ [], 1)
unfolding index_dir Option.bind
index_dir-counts = refl
