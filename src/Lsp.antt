-- ===== src/Lsp.antt =====
-- server/internal/lsp: positions and ranges of protocol.go, the display names and kinds of symbols.go,
-- folding.go, and of server.go the source of a path and the handlers for definitions and references.
pub mod Hierarchy
pub mod Documents
pub mod Symbols
pub mod Frames
use mathlib.Core.Option
use tcl_lsp_nvim.Base.{
  eql, ℕ, ◌+◌, Bool, true, false, List, [], ◌∷◌, ◌++◌, map, Option, none, some, ltb, if◌then◌else◌,
  Bytes, codes, drop, last_index_of, ◌>>=◌,
}
use tcl_lsp_nvim.Assoc.{Assoc, lookup}
use tcl_lsp_nvim.Syntax.{global_ns}
use tcl_lsp_nvim.Defs.{DefKind, def_proc, def_namespace_var, def_class, def_method, def_ivar}
use tcl_lsp_nvim.Files.{FoldRange}
use tcl_lsp_nvim.Index as Table
use tcl_lsp_nvim.Index.{Index}
use tcl_lsp_nvim.Position.{byte_offset, lsp_position}
use tcl_lsp_nvim.Resolve.{Workspace}
use tcl_lsp_nvim.Resolve.Workspaces.{source_at, workspace_of}
use tcl_lsp_nvim.Resolve.Targets.{dedup_places, definition, references, declarations}

-- What the server takes from Go's library: `utf8` with `utf16`, `sort.Strings`, `strconv.Itoa`,
-- `net/url` with a URL as its scheme and path, and `filepath.Base`.
pub record Host : Type 0 where
  pub decode : Bytes → ℕ × ℕ
  pub sort : List Bytes → List Bytes
  pub itoa : ℕ → Bytes
  pub parse_url : Bytes → Option (Bytes × Bytes)
  pub print_url : Bytes → Bytes → Bytes
  pub base_name : Bytes → Bytes

-- The open documents by URI, and the index.
pub record Server : Type 0 where
  pub docs : Assoc Bytes
  pub ix : Index

pub record Position : Type 0 where
  pub line : ℕ
  pub character : ℕ

pub record Range : Type 0 where
  pub start : Position
  pub end : Position

pub record LspLocation : Type 0 where
  pub uri : Bytes
  pub range : Range

pub record FoldingRange : Type 0 where
  pub start_line : ℕ
  pub end_line : ℕ

-- The numbers of the protocol; `none` is `ok == false`.
abbrev pub symbol_kind : DefKind → Option ℕ
symbol_kind def_proc = some 12
symbol_kind def_method = some 6
symbol_kind def_ivar = some 8
symbol_kind def_class = some 5
symbol_kind def_namespace_var = some 13
symbol_kind _ = none

abbrev behind_colons : Bytes → Option ℕ → Bytes
behind_colons fq none = fq
behind_colons fq (some i) = drop (i + 2) fq

unfoldable pub short_name : Bytes → Bytes
unfolding last_index_of
short_name fq = behind_colons fq (last_index_of fq global_ns)

abbrev pub path_to_uri : Host → Bytes → Bytes
path_to_uri host path = host.print_url (codes "file") path

unfoldable file_path : Bytes → Option (Bytes × Bytes) → Bytes
unfolding eql
file_path uri none = uri
file_path uri (some (scheme, path)) = if eql scheme (codes "file") then path else uri

unfoldable pub uri_to_path : Host → Bytes → Bytes
unfolding file_path
uri_to_path host uri = file_path uri (host.parse_url uri)

module _ (host : Host) where
  unfoldable pub offset_to_position : Bytes → ℕ → Position
  unfolding lsp_position
  offset_to_position src offset =
      let (line, character) = lsp_position host.decode src offset in
      record { line = line; character = character }

  abbrev pub range_of : Bytes → ℕ → ℕ → Range
  range_of src start end = record {
    start = offset_to_position src start;
    end = offset_to_position src end;
  }

  unfoldable pub build_folding_ranges : List FoldRange → Bytes → List FoldingRange
  unfolding offset_to_position
  build_folding_ranges [] src = []
  build_folding_ranges (f ∷ folds) src =
      let first = (offset_to_position src f.opening).line in
      let last = (offset_to_position src f.closing).line in
      let rest = build_folding_ranges folds src in
      if ltb first last then record { start_line = first; end_line = last } ∷ rest else rest

  abbrev or_indexed : Bytes → Index → Option Bytes → Bytes
  or_indexed path ix none = source_at path ix
  or_indexed path ix (some text) = text

  unfoldable pub source_of : Server → Bytes → Bytes
  unfolding lookup
  source_of sv path = or_indexed path sv.ix (lookup (path_to_uri host path) sv.docs)

  abbrev pub workspace : Server → Workspace
  workspace sv = workspace_of host.sort sv.ix

  abbrev pub to_location : Server → Table.Location → LspLocation
  to_location sv l = record {
    uri = path_to_uri host l.file;
    range = range_of (source_of sv l.file) l.name_start l.name_end;
  }

  abbrev pub to_locations : Server → List Table.Location → List LspLocation
  to_locations sv = map (to_location sv)

  abbrev pub merge_locations : List Table.Location → List Table.Location → List Table.Location
  merge_locations decls refs = dedup_places [] (decls ++ refs)

  -- The file, its text and the offset of a request.
  abbrev pub at_request : Server → Bytes → Position → Bytes × Bytes × ℕ
  at_request sv uri p =
      let path = uri_to_path host uri in
      let src = source_of sv path in (path, src, byte_offset host.decode src p.line p.character)

  unfoldable pub handle_definition : Server → Bytes → Position → Option (List LspLocation)
  unfolding definition source_of workspace_of byte_offset offset_to_position
  handle_definition sv uri p =
      let (path, src, off) = at_request sv uri p in
      Option.map (to_locations sv) (definition (workspace sv) path src off)

  abbrev with_declarations :
      Bool → Server → Bytes → Bytes → ℕ → List Table.Location → Option (List Table.Location)
  with_declarations false sv path src off locs = some locs
  with_declarations true sv path src off locs =
      Option.map (λ decls. merge_locations decls locs) (declarations (workspace sv) path src off)

  unfoldable pub handle_references : Server → Bytes → Position → Bool → Option (List LspLocation)
  unfolding references declarations dedup_places source_of workspace_of byte_offset
      offset_to_position
  handle_references sv uri p include_declaration =
      let (path, src, off) = at_request sv uri p in
      Option.map (to_locations sv) (
        references (workspace sv) path src off
        >>= with_declarations include_declaration sv path src off)
