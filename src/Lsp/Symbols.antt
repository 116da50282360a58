-- ===== src/Lsp/Symbols.antt =====
-- server/internal/lsp/symbols.go: the symbol of a definition, and the symbols of the workspace.
use tcl_lsp_nvim.Base.{
  ℕ, Bool, true, ◌&&◌, ◌||◌, List, [], ◌∷◌, ◌≡◌, Option, none, some, ltb, leb, ◌==◌, if◌then◌else◌,
  if_cases, Bytes, length, arith,
}
use tcl_lsp_nvim.Defs.{Definition}
use tcl_lsp_nvim.ClassOf.{contains}
use tcl_lsp_nvim.Index.Entries.{SymbolEntry, all_symbols}
use tcl_lsp_nvim.Lsp.{
  Host, Server, Range, LspLocation, path_to_uri, symbol_kind, offset_to_position, range_of,
  source_of,
}
use tcl_lsp_nvim.Lsp.Hierarchy.{kind_number}

-- A document symbol without children.
pub record LeafSymbol : Type 0 where
  pub name : Bytes
  pub kind : ℕ
  pub range : Range
  pub selection_range : Range

unfoldable pub pos_contains : Range → Range → Bool
pos_contains outer inner =
    (ltb outer.start.line inner.start.line
      || (outer.start.line == inner.start.line && leb outer.start.character inner.start.character))
    && (ltb inner.end.line outer.end.line
        || (outer.end.line == inner.end.line && leb inner.end.character outer.end.character))

-- The full extent of a definition that has one, if it has the name in it.
abbrev pub full_range : Definition → Range → Range → Range
full_range d full sel =
    if d.full_start == 0 && d.full_end == 0
    then sel
    else if pos_contains full sel
    then full
    else sel

pub record SymbolInformation : Type 0 where
  pub name : Bytes
  pub kind : ℕ
  pub location : LspLocation
  pub container_name : Bytes

-- `strings.Contains(strings.ToLower(name), query)`, where the query is not empty.
abbrev pub is_match : (Bytes → Bytes) → Bytes → Bytes → Bool
is_match lower query name = length query == 0 || contains (lower name) query

module _ (host : Host) where
  unfoldable pub leaf_symbol : Definition → Bytes → LeafSymbol
  unfolding offset_to_position pos_contains
  leaf_symbol d src =
      let sel = range_of host src d.name_start d.name_end in
      let full = range_of host src d.full_start d.full_end in
      record {
        name = d.name;
        kind = kind_number d.kind;
        range = full_range d full sel;
        selection_range = sel;
      }

  abbrev add_symbol :
      (Bytes → Bytes) → SymbolEntry → Option ℕ → List SymbolInformation → List SymbolInformation
  add_symbol sources e none out = out
  add_symbol sources e (some kind) out =
      record {
        name = e.name;
        kind = kind;
        location = record {
          uri = path_to_uri host e.file;
          range = range_of host (sources e.file) e.name_start e.name_end;
        };
        container_name = e.container;
      }
      ∷ out

  module _ (lower : Bytes → Bytes) where
    -- Where `query` is in lower case.
    unfoldable pub symbols_matching :
        List SymbolEntry → Bytes → (Bytes → Bytes) → List SymbolInformation
    unfolding contains offset_to_position
    symbols_matching [] query sources = []
    symbols_matching (e ∷ es) query sources =
        let rest = symbols_matching es query sources in
        if is_match lower query e.name then add_symbol sources e (symbol_kind e.kind) rest else rest

    unfoldable pub build_workspace_symbols :
        List SymbolEntry → Bytes → (Bytes → Bytes) → List SymbolInformation
    unfolding symbols_matching
    build_workspace_symbols es query sources = symbols_matching es (lower query) sources

    -- The answer to `workspace/symbol`.
    unfoldable pub workspace_symbols :
        (List SymbolEntry → List SymbolEntry) → Server → Bytes → List SymbolInformation
    unfolding build_workspace_symbols all_symbols source_of
    workspace_symbols sort sv query =
        build_workspace_symbols (all_symbols sort sv.ix) query (source_of host sv)

pos_contains_self : (r : Range) → pos_contains r r ≡ true
unfolding pos_contains
pos_contains_self r = ground arith

full_range-contains :
    (d : Definition) (full sel : Range) → pos_contains (full_range d full sel) sel ≡ true
full_range-contains d full sel =
    if_cases (λ r. pos_contains r sel ≡ true) (d.full_start == 0 && d.full_end == 0) _ _
      (λ _. pos_contains_self sel)
      λ _.
        if_cases (λ r. pos_contains r sel ≡ true) (pos_contains full sel) _ _ (λ e. e)
          λ _. pos_contains_self sel

-- The range of the symbol of any definition has the range of its name in it.
pub pos_contains-leaf_symbol :
    (host : Host) (d : Definition) (src : Bytes)
    → pos_contains (leaf_symbol host d src).range (leaf_symbol host d src).selection_range ≡ true
unfolding leaf_symbol
pos_contains-leaf_symbol host d src =
    full_range-contains d (range_of host src d.full_start d.full_end)
      (range_of host src d.name_start d.name_end)
