-- ===== src/Lsp/Hierarchy.antt =====
-- server/internal/lsp/callhierarchy.go. `none` is a panic of the analyses where the result is an
-- `Option` of a list; the groups of calls are a list in the order in which they came.
pub mod Overrides
pub mod Calls
pub mod Extents
use mathlib.Core.Option
use tcl_lsp_nvim.Base.{
  ℕ, zero, suc, ◌+◌, Bool, true, false, ◌&&◌, ◌||◌, not, List, [], ◌∷◌, ◌++◌, map, Option, none,
  some, ◌==◌, leb, ltb, if◌then◌else◌, Bytes, codes, length, eql, one_of, ◌>>=◌,
}
use tcl_lsp_nvim.Assoc.{Assoc, lookup, find_or}
use tcl_lsp_nvim.Defs.{
  DefKind, def_proc, def_namespace_var, def_local, def_global_link, def_class, def_method, def_ivar,
  Definition,
}
use tcl_lsp_nvim.Files.{ContextRef}
use tcl_lsp_nvim.ObjMethod.{is_within}
use tcl_lsp_nvim.Source.{defs, refs}
use tcl_lsp_nvim.Index as Table
use tcl_lsp_nvim.Index.{ClassInfo}
use tcl_lsp_nvim.Resolve.{Workspace, is_command}
use tcl_lsp_nvim.Resolve.Members.{Seen, methods_called}
use tcl_lsp_nvim.Resolve.Targets.{definition, references}
use tcl_lsp_nvim.Lsp.{
  Host, Server, Position, Range, symbol_kind, short_name, range_of, source_of, workspace,
  at_request,
}

pub record Anchor : Type 0 where
  pub file : Bytes
  pub name : Bytes
  pub kind : DefKind
  pub name_start : ℕ
  pub name_end : ℕ

pub record CallItem : Type 0 where
  pub name : Bytes
  pub detail : Bytes
  pub kind : ℕ
  pub uri : Bytes
  pub range : Range
  pub selection_range : Range

abbrev pub is_callable : DefKind → Bool
is_callable def_proc = true
is_callable def_method = true
is_callable _ = false

abbrev pub is_method : DefKind → Bool
is_method def_method = true
is_method _ = false

unfoldable pub declared_at : Bytes → ℕ → List Definition → Option Anchor
declared_at file offset [] = none
declared_at file offset (d ∷ ds) =
    if is_callable d.kind && is_within offset d.name_start d.name_end
    then some (record {
      file = file;
      name = d.name;
      kind = d.kind;
      name_start = d.name_start;
      name_end = d.name_end;
    })
    else declared_at file offset ds

unfoldable pub first_callable : List Table.Location → Option Anchor
first_callable [] = none
first_callable (l ∷ locs) =
    if is_callable l.kind
    then some (record {
      file = l.file;
      name = l.name;
      kind = l.kind;
      name_start = l.name_start;
      name_end = l.name_end;
    })
    else first_callable locs

abbrev pub or_called : Workspace → Bytes → Bytes → ℕ → Option Anchor → Option (Option Anchor)
or_called ws file src offset (some a) = some (some a)
or_called ws file src offset none = Option.map first_callable (definition ws file src offset)

unfoldable pub resolve_anchor : Workspace → Bytes → Bytes → ℕ → Option (Option Anchor)
unfolding declared_at first_callable definition defs
resolve_anchor ws file src offset =
    defs file src >>= λ ds. or_called ws file src offset (declared_at file offset ds)

-- The callable that starts last of those whose extent has the offset, the first of equals.
abbrev pub encloses : ℕ → Definition → Bool
encloses offset d = is_callable d.kind && is_within offset d.full_start d.full_end

abbrev pub later : Definition → Option Definition → Option Definition
later d none = some d
later d (some best) = if ltb best.full_start d.full_start then some d else some best

unfoldable pub enclosing_from : ℕ → List Definition → Option Definition → Option Definition
enclosing_from offset [] best = best
enclosing_from offset (d ∷ ds) best =
    enclosing_from offset ds (if encloses offset d then later d best else best)

abbrev pub enclosing_def : List Definition → ℕ → Option Definition
enclosing_def ds offset = enclosing_from offset ds none

-- The number of a callable's kind; 0 where there is none.
abbrev pub kind_number : DefKind → ℕ
kind_number k = elim (symbol_kind k) [ none ↦ 0 | some n ↦ n ]

-- A group of calls: its key, the item, and the ranges.
pub record Group : Type 0 where
  pub key : Bytes
  pub item : CallItem
  pub ranges : List Range

unfoldable pub add_call : Bytes → CallItem → Range → List Group → List Group
unfolding eql
add_call key item r [] = record { key = key; item = item; ranges = r ∷ [] } ∷ []
add_call key item r (g ∷ gs) =
    let rest = g ∷ add_call key item r gs in
    if eql g.key key then record g { ranges = g.ranges ++ r ∷ [] } ∷ gs else rest

-- `a.Kind == b.Kind`
abbrev kind_code : DefKind → ℕ
kind_code def_proc = 0
kind_code def_namespace_var = 1
kind_code def_local = 2
kind_code def_global_link = 3
kind_code def_class = 4
kind_code def_method = 5
kind_code def_ivar = 6

abbrev pub same_kind : DefKind → DefKind → Bool
same_kind k j = kind_code k == kind_code j

-- The definition that the anchor names, the first of them.
unfoldable pub anchor_def : Anchor → List Definition → Option Definition
unfolding eql
anchor_def a [] = none
anchor_def a (d ∷ ds) =
    if same_kind d.kind a.kind && d.name_start == a.name_start && eql d.name a.name
    then some d
    else anchor_def a ds
