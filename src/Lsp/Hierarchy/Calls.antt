-- ===== src/Lsp/Hierarchy/Calls.antt =====
-- server/internal/lsp/callhierarchy.go: the items of the hierarchy, and the calls to and from one.
use mathlib.Core.Option
use tcl_lsp_nvim.Base.{
  ℕ, Bool, false, ◌&&◌, List, [], ◌∷◌, ◌++◌, Option, none, some, ◌==◌, if◌then◌else◌, Bytes, codes,
  ◌>>=◌,
}
use tcl_lsp_nvim.Defs.{DefKind, Definition}
use tcl_lsp_nvim.Files.{ContextRef}
use tcl_lsp_nvim.ObjMethod.{is_within}
use tcl_lsp_nvim.Source.{defs, refs}
use tcl_lsp_nvim.Index.{Location}
use tcl_lsp_nvim.Resolve.{is_command}
use tcl_lsp_nvim.Resolve.Targets.{definition, references}
use tcl_lsp_nvim.Lsp.{
  Host, Server, Position, Range, path_to_uri, offset_to_position, short_name, range_of, source_of,
  workspace, at_request,
}
use tcl_lsp_nvim.Lsp.Hierarchy.{
  Anchor, CallItem, is_callable, is_method, resolve_anchor, enclosing_from, enclosing_def,
  kind_number, same_kind, Group, add_call, anchor_def,
}
use tcl_lsp_nvim.Lsp.Hierarchy.Overrides.{method_call_sites}

-- The `Range{}` of a file item.
abbrev zero_range : Range
zero_range = record {
  start = record { line = 0; character = 0 };
  end = record { line = 0; character = 0 };
}

module _ (host : Host) (sv : Server) where
  unfoldable pub call_item : Bytes → Bytes → DefKind → ℕ → ℕ → Bytes → CallItem
  unfolding short_name offset_to_position
  call_item file name kind start end src = record {
    name = short_name name;
    detail = name;
    kind = kind_number kind;
    uri = path_to_uri host file;
    range = range_of host src start end;
    selection_range = range_of host src start end;
  }

  abbrev pub file_item : Bytes → CallItem
  file_item file = record {
    name = host.base_name file;
    detail = [];
    kind = 1;
    uri = path_to_uri host file;
    range = zero_range;
    selection_range = zero_range;
  }

  abbrev pub anchor_item : Anchor → CallItem
  anchor_item a = call_item a.file a.name a.kind a.name_start a.name_end (source_of host sv a.file)

  -- The key of a callable at an offset of a file.
  abbrev pub callable_key : Bytes → ℕ → Bytes
  callable_key file start = file ++ (codes "#" ++ host.itoa start)

  abbrev anchor_at : Bytes × Bytes × ℕ → Option (Option Anchor)
  anchor_at (path, src, off) = resolve_anchor (workspace host sv) path src off

  unfoldable pub prepare_call_hierarchy : Bytes → Position → Option (List CallItem)
  unfolding resolve_anchor call_item source_of
  prepare_call_hierarchy uri p =
      Option.map (λ o. elim o [ none ↦ [] | some a ↦ anchor_item a ∷ [] ])
        (anchor_at (at_request host sv uri p))

  abbrev pub anchor_from_item : CallItem → Option (Option Anchor)
  anchor_from_item item = anchor_at (at_request host sv item.uri item.selection_range.start)

  -- The caller of a site: the key of its group, and its item.
  abbrev pub caller_of : Location → Bytes → Option Definition → Bytes × CallItem
  caller_of l src none = (codes "file:" ++ l.file, file_item l.file)
  caller_of l src (some d) =
      (callable_key l.file d.name_start, call_item l.file d.name d.kind d.name_start d.name_end src)

  abbrev add_caller : Location → Bytes → Bytes × CallItem → List Group → List Group
  add_caller l src (key, item) groups =
      add_call key item (range_of host src l.name_start l.name_end) groups

  -- The loop over the call sites.
  unfoldable pub group_callers : List Location → List Group → Option (List Group)
  unfolding enclosing_from add_call call_item source_of defs
  group_callers [] groups = some groups
  group_callers (l ∷ locs) groups =
      let src = source_of host sv l.file in
      defs l.file src >>= λ ds.
      group_callers locs (add_caller l src (caller_of l src (enclosing_def ds l.name_start)) groups)

  unfoldable pub call_sites_of : Anchor → Option (List Location)
  unfolding method_call_sites references source_of refs
  call_sites_of a =
      let src = source_of host sv a.file in
      if is_method a.kind
      then Option.map (method_call_sites (workspace host sv) a) (refs a.file src)
      else references (workspace host sv) a.file src a.name_start

  unfoldable pub incoming_calls : CallItem → Option (List Group)
  unfolding resolve_anchor call_sites_of group_callers source_of
  incoming_calls item = anchor_from_item item >>= λ o. elim o [
    | none ↦ some []
    | some a ↦ call_sites_of a >>= λ sites. group_callers sites []
  ]

  -- The callees at one call: the loop over the definitions of the reference.
  unfoldable pub add_callees : Bytes → ContextRef → List Location → List Group → List Group
  unfolding add_call call_item source_of
  add_callees src r [] groups = groups
  add_callees src r (l ∷ locs) groups =
      let item =
        call_item l.file l.name l.kind l.name_start l.name_end (source_of host sv l.file) in
      let called =
        add_call (callable_key l.file l.name_start) item (range_of host src r.ref.start r.ref.end)
          groups in
      add_callees src r locs (if is_callable l.kind then called else groups)

  -- Whether the innermost callable round the call is the anchor.
  abbrev pub is_own : Anchor → Option Definition → Bool
  is_own a none = false
  is_own a (some d) = d.name_start == a.name_start && same_kind d.kind a.kind

  abbrev pub is_call_in : Anchor → Definition → List Definition → ContextRef → Bool
  is_call_in a span ds r =
      is_command r.ref.kind
      && is_within r.ref.start span.full_start span.full_end
      && is_own a (enclosing_def ds r.ref.start)

  -- The loop over the references of the file.
  unfoldable pub group_callees :
      Anchor
      → Bytes
      → Definition
      → List Definition
      → List ContextRef
      → List Group
      → Option (List Group)
  unfolding enclosing_from add_callees definition
  group_callees a src span ds [] groups = some groups
  group_callees a src span ds (r ∷ rs) groups =
      let skipped = group_callees a src span ds rs groups in
      let called = definition (workspace host sv) a.file src r.ref.start >>= λ locs.
      group_callees a src span ds rs (add_callees src r locs groups) in
      if is_call_in a span ds r then called else skipped

  abbrev callees_in :
      Anchor → Bytes → List Definition → List ContextRef → Option Definition → Option (List Group)
  callees_in a src ds rs none = some []
  callees_in a src ds rs (some span) =
      if span.full_end == 0 then some [] else group_callees a src span ds rs []

  unfoldable pub outgoing_from : Anchor → Option (List Group)
  unfolding group_callees anchor_def source_of defs refs
  outgoing_from a =
      let src = source_of host sv a.file in
      defs a.file src >>= λ ds. refs a.file src >>= λ rs. callees_in a src ds rs (anchor_def a ds)

  unfoldable pub outgoing_calls : CallItem → Option (List Group)
  unfolding resolve_anchor outgoing_from source_of
  outgoing_calls item =
      anchor_from_item item >>= λ o. elim o [ none ↦ some [] | some a ↦ outgoing_from a ]
