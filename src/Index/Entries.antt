-- ===== src/Index/Entries.antt =====
-- server/internal/index/index.go: `AllSymbols`, with `sort.Slice` as a parameter.
pub mod Listed
pub mod Held
use tcl_lsp_nvim.Base.{
  ℕ, ◌+◌, Bool, true, false, List, [], ◌∷◌, ◌++◌, ◌≡◌, refl, sym, map, Option, none, some, ◌==◌,
  if◌then◌else◌, Bytes, length, drop, take, eql, last_index_of, subst, flatten, Bool-cases, if_on,
  if_off, inl, inr,
}
use tcl_lsp_nvim.Assoc.{Assoc, lookup, find_or}
use tcl_lsp_nvim.Syntax.{global_ns}
use tcl_lsp_nvim.Defs.{DefKind, def_proc, def_namespace_var, def_class, def_method, def_ivar}
use tcl_lsp_nvim.Index.{Location, ClassInfo, Index, lookup_name}

pub record SymbolEntry : Type 0 where
  pub name : Bytes
  pub kind : DefKind
  pub file : Bytes
  pub name_start : ℕ
  pub name_end : ℕ
  pub container : Bytes

abbrev pub container_of : Bytes → Bytes
container_of prefix = if length prefix == 0 then global_ns else prefix

-- The simple name and the container.
abbrev pub split_behind : Bytes → Option ℕ → Bytes × Bytes
split_behind fq none = (fq, global_ns)
split_behind fq (some i) = (drop (i + 2) fq, container_of (take i fq))

unfoldable pub split_fq_name : Bytes → Bytes × Bytes
unfolding last_index_of
split_fq_name fq = split_behind fq (last_index_of fq global_ns)

abbrev pub entry_of : Bytes → DefKind → Bytes → Location → SymbolEntry
entry_of name kind container l = record {
  name = name;
  kind = kind;
  file = l.file;
  name_start = l.name_start;
  name_end = l.name_end;
  container = container;
}

abbrev pub named_entry : Location → SymbolEntry
named_entry l = let (simple, container) = split_fq_name l.name in entry_of simple l.kind container l

-- The switch on the location's kind.
abbrev pub is_named : DefKind → Bool
is_named def_proc = true
is_named def_namespace_var = true
is_named def_class = true
is_named _ = false

unfoldable pub named_entries : List Location → List SymbolEntry
unfolding split_fq_name
named_entries [] = []
named_entries (l ∷ locs) =
    let rest = named_entries locs in if is_named l.kind then named_entry l ∷ rest else rest

abbrev pub member_entries : DefKind → Bytes → Assoc (List Location) → List SymbolEntry
member_entries kind class m = flatten (map (λ e. map (λ l. entry_of l.name kind class l) e.1) m)

abbrev pub class_entries : Bytes × ClassInfo → List SymbolEntry
class_entries (class, ci) =
    member_entries def_method class ci.methods ++ member_entries def_ivar class ci.ivars

unfoldable pub all_symbols : (List SymbolEntry → List SymbolEntry) → Index → List SymbolEntry
unfolding named_entries
all_symbols sort ix = sort (
    flatten (map (λ e. named_entries e.1) ix.defs_by_name)
    ++ flatten (map class_entries ix.classes))
