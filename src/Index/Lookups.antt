-- ===== src/Index/Lookups.antt =====
-- `Lookup` after `IndexFile` and `RemoveFile`.
use mathlib.Core.Option
use tcl_lsp_nvim.Base.{
  Bool, true, false, ◌&&◌, List, [], ◌∷◌, ◌++◌, ◌≡◌, refl, sym, ap, ◌∙◌, arith, some, if◌then◌else◌,
  Bytes, eql, if_cases, ◌==◌, length, append_assoc, append-nil,
}
use tcl_lsp_nvim.Assoc.{find_or, find_or-alter}
use tcl_lsp_nvim.Defs.{
  DefKind, def_proc, def_namespace_var, def_local, def_global_link, def_class, def_method, def_ivar,
  Definition,
}
use tcl_lsp_nvim.Decls.{Classes}
use tcl_lsp_nvim.Files.{FileIndex}
use tcl_lsp_nvim.Source.{index_unit}
use tcl_lsp_nvim.Index.{
  Location, Index, filter_locs, remove_file, location_of, note_name, index_kind, index_defs,
  index_classes, add_unit, index_file, lookup_name,
}
use tcl_lsp_nvim.Index.Tracked.{
  IsTracked, find_or-remove_file, remove_file-IsTracked, index_defs-IsTracked,
  index_classes-IsTracked,
}

-- Procs, namespace variables and classes: what the workspace sees by name.
abbrev pub is_visible : DefKind → Bool
is_visible def_proc = true
is_visible def_namespace_var = true
is_visible def_class = true
is_visible _ = false

-- The locations of the visible definitions called `name`, in order.
unfoldable pub sites : Bytes → Bytes → List Definition → List Location
unfolding eql
sites path name [] = []
sites path name (d ∷ ds) =
    let rest = sites path name ds in
    if is_visible d.kind && eql d.name name then location_of path d ∷ rest else rest

abbrev site : DefKind → Bytes → Bytes → Definition → List Location
site k path name d = if is_visible k && eql d.name name then location_of path d ∷ [] else []

find_or-note_name :
    (path name : Bytes) (d : Definition) (ix : Index)
    → find_or [] name (note_name path d ix).defs_by_name
      ≡ find_or [] name ix.defs_by_name ++ (if eql d.name name then location_of path d ∷ [] else [])
find_or-note_name path name d ix = ground (
  arith,
  find_or-alter [] d.name name (λ locs. locs ++ location_of path d ∷ []) ix.defs_by_name,
  append-nil (find_or [] name ix.defs_by_name),
)

find_or-index_kind :
    (k : DefKind) (path name : Bytes) (d : Definition) (ix : Index)
    → find_or [] name (index_kind k path d ix).defs_by_name
      ≡ find_or [] name ix.defs_by_name ++ site k path name d
unfolding index_kind
find_or-index_kind def_proc path name d ix = find_or-note_name path name d ix
find_or-index_kind def_namespace_var path name d ix = find_or-note_name path name d ix
find_or-index_kind def_class path name d ix = find_or-note_name path name d ix
find_or-index_kind def_method path name d ix =
    if_cases
      (λ (jx : Index). find_or [] name jx.defs_by_name ≡ find_or [] name ix.defs_by_name ++ [])
      (length d.class == 0) _ _ (λ _. sym (append-nil _)) λ _. sym (append-nil _)
find_or-index_kind def_ivar path name d ix =
    if_cases
      (λ (jx : Index). find_or [] name jx.defs_by_name ≡ find_or [] name ix.defs_by_name ++ [])
      (length d.class == 0) _ _ (λ _. sym (append-nil _)) λ _. sym (append-nil _)
find_or-index_kind def_local path name d ix = sym (append-nil _)
find_or-index_kind def_global_link path name d ix = sym (append-nil _)

site-sites :
    (path name : Bytes) (d : Definition) (ds : List Definition)
    → site d.kind path name d ++ sites path name ds ≡ sites path name (d ∷ ds)
unfolding sites
site-sites path name d ds =
    if_cases (λ xs. xs ++ sites path name ds ≡ sites path name (d ∷ ds))
      (is_visible d.kind && eql d.name name) _ _ (λ e. rw e refl) λ e. rw e refl

find_or-index_defs :
    (path name : Bytes) (ds : List Definition) (ix : Index)
    → find_or [] name (index_defs path ds ix).defs_by_name
      ≡ find_or [] name ix.defs_by_name ++ sites path name ds
unfolding index_defs sites
find_or-index_defs path name [] ix = sym (append-nil _)
find_or-index_defs path name (d ∷ ds) ix =
    find_or-index_defs path name ds (index_kind d.kind path d ix)
    ∙ ap (λ xs. xs ++ sites path name ds) (find_or-index_kind d.kind path name d ix)
    ∙ append_assoc (find_or [] name ix.defs_by_name) (site d.kind path name d) (sites path name ds)
    ∙ ap (◌++◌ (find_or [] name ix.defs_by_name)) (site-sites path name d ds)

index_classes-defs :
    (path : Bytes) (m : Classes) (ix : Index)
    → (index_classes path m ix).defs_by_name ≡ ix.defs_by_name
unfolding index_classes
index_classes-defs path [] ix = refl
index_classes-defs path ((fq, bases) ∷ m) ix = index_classes-defs path m _

-- The locations of a name in the other files are left by `RemoveFile`, in their order, and no
-- location in the file is, if the table is tracked.
pub lookup_name-remove_file :
    (path name : Bytes) (ix : Index)
    → IsTracked ix
    → lookup_name name (remove_file path ix) ≡ filter_locs (lookup_name name ix) path
unfolding lookup_name
lookup_name-remove_file path name ix h = find_or-remove_file path name ix h

-- What a table is after a file with the analyses `u` has been indexed into `ix`.
pub record IsIndexed (path : Bytes) (u : FileIndex) (ix jx : Index) : Type 0 where
  pub tracked : IsTracked jx
  pub lookups :
      (name : Bytes)
      → lookup_name name jx ≡ filter_locs (lookup_name name ix) path ++ sites path name u.defs

add_unit-IsIndexed :
    (path content : Bytes) (u : FileIndex) (ix : Index)
    → IsTracked ix
    → IsIndexed path u ix (add_unit path content u (remove_file path ix))
unfolding lookup_name
add_unit-IsIndexed path content u ix h = record {
  tracked =
      index_classes-IsTracked path u.classes _
        (index_defs-IsTracked path u.defs _ (remove_file-IsTracked path ix h));
  lookups = λ name.
      ap (find_or [] name) (index_classes-defs path u.classes _)
      ∙ find_or-index_defs path name u.defs _
      ∙ ap (λ xs. xs ++ sites path name u.defs) (find_or-remove_file path name ix h);
}

-- If every location of a table is listed under its file, and the analyses of a file have a
-- result, then indexing the file gives a table in which every location is listed again, and
-- the lookup of each name gives its locations in the other files, in their order, and behind
-- them those of the visible definitions with that name in the new content.
pub index_file-IsIndexed :
    (path content : Bytes) (u : FileIndex) (ix : Index)
    → IsTracked ix
    → index_unit path content ≡ some u
    → (jx : Index) × (index_file path content ix ≡ some jx) × IsIndexed path u ix jx
unfolding index_file
index_file-IsIndexed path content u ix h e = (
  _,
  ap (Option.map (λ unit. add_unit path content unit (remove_file path ix))) e,
  add_unit-IsIndexed path content u ix h,
)
