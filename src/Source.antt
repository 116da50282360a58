-- ===== src/Source.antt =====
-- server/internal/source/source.go: the per-file analyses in the coordinates of the file. A `.tcl`
-- file is analysed as it is; a `.rvt` template is extracted, and each offset translated back.
-- `none` is the panic of `emitDefs`, as in Files.
pub mod Coordinates
pub mod Units
pub mod Receivers
use mathlib.Core.Option
use tcl_lsp_nvim.Base.{
  ℕ, ◌+◌, ◌-◌, Bool, ◌&&◌, List, [], ◌∷◌, Option, none, some, leb, if◌then◌else◌, Bytes, codes,
  length, drop, eql,
}
use tcl_lsp_nvim.Rvt.{Document, source_in, to_source, extract}
use tcl_lsp_nvim.Refs.{Reference}
use tcl_lsp_nvim.Defs.{Definition}
use tcl_lsp_nvim.Decls.{Namespaces, Classes}
use tcl_lsp_nvim.Files.{
  ContextRef, FileIndex, FoldRange, walk_all, file_all, file_defs, file_refs, file_namespaces,
  file_classes, file_folds,
}

-- `strings.HasSuffix(s, p)`
unfoldable pub has_suffix : Bytes → Bytes → Bool
unfolding eql
has_suffix s p = leb (length p) (length s) && eql (drop (length s - length p) s) p

unfoldable pub is_rvt : Bytes → Bool
unfolding has_suffix
is_rvt path = has_suffix path (codes ".rvt")

-- The full range, moved to `fs`, or the name's range where the full one has no source.
abbrev pub full_at : Option ℕ → ℕ → ℕ → Definition → Definition
full_at none start end d = record d {
  name_start = start;
  name_end = end;
  full_start = start;
  full_end = end;
}
full_at (some fs) start end d = record d {
  name_start = start;
  name_end = end;
  full_start = fs;
  full_end = fs + (d.full_end - d.full_start);
}

abbrev pub source_def : Document → Definition → Option Definition
source_def doc d =
    Option.map (λ s. full_at (to_source doc d.full_start) s (s + (d.name_end - d.name_start)) d)
      (to_source doc d.name_start)

abbrev pub source_ref : Document → ContextRef → Option ContextRef
source_ref doc r =
    Option.map
      (λ s. record r { ref = record r.ref { start = s; end = s + (r.ref.end - r.ref.start) } })
      (to_source doc r.ref.start)

abbrev pub source_fold : Document → FoldRange → Option FoldRange
source_fold doc f =
    Option.bind (to_source doc f.opening)
      (λ o. Option.map (λ c. record { opening = o; closing = c }) (to_source doc f.closing))

-- The loops over the analyses of the script: what has no source is dropped.
abbrev pub kept {ℓ} : {A : Type ℓ} → Option A → List A → List A
kept none xs = xs
kept (some x) xs = x ∷ xs

unfoldable pub source_defs : Document → List Definition → List Definition
unfolding source_in
source_defs doc [] = []
source_defs doc (d ∷ ds) = kept (source_def doc d) (source_defs doc ds)

unfoldable pub source_refs : Document → List ContextRef → List ContextRef
unfolding source_in
source_refs doc [] = []
source_refs doc (r ∷ rs) = kept (source_ref doc r) (source_refs doc rs)

unfoldable pub source_folds : Document → List FoldRange → List FoldRange
unfolding source_in Option.bind
source_folds doc [] = []
source_folds doc (f ∷ fs) = kept (source_fold doc f) (source_folds doc fs)

unfoldable pub defs : Bytes → Bytes → Option (List Definition)
unfolding is_rvt extract walk_all source_defs
defs path content =
    let doc = extract content in
    if is_rvt path then Option.map (source_defs doc) (file_defs doc.script) else file_defs content

abbrev pub source_unit : Document → FileIndex → FileIndex
source_unit doc fi = record fi { defs = source_defs doc fi.defs; refs = source_refs doc fi.refs }

unfoldable pub index_unit : Bytes → Bytes → Option FileIndex
unfolding is_rvt extract walk_all source_defs source_refs
index_unit path content =
    let doc = extract content in
    if is_rvt path then Option.map (source_unit doc) (file_all doc.script) else file_all content

unfoldable pub refs : Bytes → Bytes → Option (List ContextRef)
unfolding is_rvt extract walk_all source_refs
refs path content =
    let doc = extract content in
    if is_rvt path then Option.map (source_refs doc) (file_refs doc.script) else file_refs content

unfoldable pub namespaces : Bytes → Bytes → Option Namespaces
unfolding is_rvt extract walk_all
namespaces path content =
    if is_rvt path then file_namespaces (extract content).script else file_namespaces content

unfoldable pub classes : Bytes → Bytes → Option Classes
unfolding is_rvt extract walk_all
classes path content =
    if is_rvt path then file_classes (extract content).script else file_classes content

unfoldable pub folds : Bytes → Bytes → List FoldRange
unfolding is_rvt extract file_folds source_folds
folds path content =
    let doc = extract content in
    if is_rvt path then source_folds doc (file_folds doc.script) else file_folds content
