-- ===== src/Resolve/Locals.antt =====
-- server/internal/resolve/resolve.go: the symbol at an offset, and the definitions and references of a
-- proc's local. `none` is a panic of the analyses.
use mathlib.Core.Option
use tcl_lsp_nvim.Base.{
  ℕ, zero, suc, ◌+◌, ◌-◌, Bool, true, false, ◌&&◌, List, [], ◌∷◌, ◌++◌, Option, none, some, ◌==◌,
  ltb, if◌then◌else◌, Bytes, length, drop, eql, has_prefix, ◌>>=◌,
}
use tcl_lsp_nvim.Syntax.{in_proc, first_byte}
use tcl_lsp_nvim.VarRef.{name_run, colons}
use tcl_lsp_nvim.Refs.{ref_variable}
use tcl_lsp_nvim.Defs.{DefKind, def_local, def_global_link, Definition}
use tcl_lsp_nvim.Files.{ContextRef}
use tcl_lsp_nvim.Source.{defs, refs}
use tcl_lsp_nvim.Source.Receivers.{reaching}
use tcl_lsp_nvim.ObjMethod.{is_within}
use tcl_lsp_nvim.Index.{Location}
use tcl_lsp_nvim.Resolve.{Workspace, has_sites, lookup_scoped}

abbrev pub is_local_binding : DefKind → Bool
is_local_binding def_local = true
is_local_binding def_global_link = true
is_local_binding _ = false

-- A proc's local: its name and scope.
abbrev pub Local : Type 0
Local = Bytes × ℕ

unfoldable pub bound_at : ℕ → List Definition → Option Local
bound_at offset [] = none
bound_at offset (d ∷ ds) =
    if is_local_binding d.kind && is_within offset d.name_start d.name_end
    then some (d.name, d.scope)
    else bound_at offset ds

-- A `$` use in a proc.
abbrev pub is_local_use : ContextRef → Bool
is_local_use r = elim r.ref.kind [ ref_variable ↦ in_proc r.context.frame | _ ↦ false ]

abbrev pub covers : ℕ → ContextRef → Bool
covers offset r = is_within offset r.ref.start r.ref.end

unfoldable pub used_at : ℕ → List ContextRef → Option Local
used_at offset [] = none
used_at offset (r ∷ rs) =
    if is_local_use r && covers offset r
    then some (r.ref.name, r.context.scope)
    else used_at offset rs

abbrev or_used_at : Bytes → Bytes → ℕ → Option Local → Option (Option Local)
or_used_at file src offset none = Option.map (used_at offset) (refs file src)
or_used_at file src offset (some l) = some (some l)

unfoldable pub local_at : Bytes → Bytes → ℕ → Option (Option Local)
unfolding bound_at used_at defs refs
local_at file src offset = defs file src >>= λ ds. or_used_at file src offset (bound_at offset ds)

-- The reference of the least size round the offset, the first of those; `best` is the one so far.
abbrev pub ref_size : ContextRef → ℕ
ref_size r = r.ref.end - r.ref.start

abbrev pub better : ContextRef → Option ContextRef → Option ContextRef
better r none = some r
better r (some best) = if ltb (ref_size r) (ref_size best) then some r else some best

unfoldable pub innermost : ℕ → List ContextRef → Option ContextRef → Option ContextRef
innermost offset [] best = best
innermost offset (r ∷ rs) best =
    innermost offset rs (if covers offset r then better r best else best)

unfoldable pub ref_at : Bytes → Bytes → ℕ → Option (Option ContextRef)
unfolding innermost refs
ref_at file src offset = Option.map (λ rs. innermost offset rs none) (refs file src)

-- The loop over the qualified segments, and the test behind it. On fuel; each turn passes two bytes.
unfoldable pub ends_in_paren : ℕ → Bytes → Bool
unfolding name_run has_prefix
ends_in_paren zero s = first_byte s b'('
ends_in_paren (suc fuel) s =
    let behind = ends_in_paren fuel (drop (2 + name_run (drop 2 s)) s) in
    if has_prefix s colons then behind else first_byte s b'('

unfoldable pub is_array_var_at : Bytes → ℕ → Bool
unfolding ends_in_paren name_run
is_array_var_at src offset =
    let s = drop offset src in ends_in_paren (length s) (drop (name_run s) s)

abbrev pub local_location : Bytes → Bytes → ℕ → ℕ → Location
local_location file name start end = record {
  file = file;
  name = name;
  kind = def_local;
  name_start = start;
  name_end = end;
}

-- A link is followed to what it links to, where that has definitions.
abbrev pub origin_sites : Workspace → Bytes → Definition → List Location
origin_sites ws file d = if length d.origin == 0 then [] else lookup_scoped ws d.origin file

abbrev pub or_site : List Location → Location → List Location
or_site [] l = l ∷ []
or_site (l' ∷ ls) l = l' ∷ ls

abbrev pub binding_sites : Workspace → Bytes → Definition → List Location
binding_sites ws file d =
    or_site (origin_sites ws file d) (local_location file d.name d.name_start d.name_end)

unfoldable pub reaching_sites : Workspace → Bytes → List Definition → List Location
unfolding lookup_scoped
reaching_sites ws file [] = []
reaching_sites ws file (d ∷ ds) = binding_sites ws file d ++ reaching_sites ws file ds

abbrev answer_sites : Workspace → Bytes → Option (List Definition) → List Location
answer_sites ws file none = []
answer_sites ws file (some ds) = reaching_sites ws file ds

-- What the reaching analysis answers; nothing where it is not asked or does not answer.
unfoldable pub precise_sites : Workspace → Bytes → Bytes → ℕ → Option (List Location)
unfolding is_array_var_at reaching reaching_sites
precise_sites ws file src offset =
    if is_array_var_at src offset
    then some []
    else Option.map (answer_sites ws file) (reaching file src offset)

abbrev pub binds : Local → Definition → Bool
binds (name, scope) d = is_local_binding d.kind && eql d.name name && d.scope == scope

abbrev pub earlier : Definition → Option Definition → Option Definition
earlier d none = some d
earlier d (some first) = if ltb d.name_start first.name_start then some d else some first

unfoldable pub earliest : Local → List Definition → Option Definition → Option Definition
unfolding eql
earliest l [] first = first
earliest l (d ∷ ds) first = earliest l ds (if binds l d then earlier d first else first)

abbrev earliest_sites : Workspace → Bytes → Option Definition → List Location
earliest_sites ws file none = []
earliest_sites ws file (some d) = binding_sites ws file d

unfoldable pub local_definition : Workspace → Bytes → Bytes → Local → ℕ → Option (List Location)
unfolding precise_sites earliest lookup_scoped defs
local_definition ws file src l offset = do
  precise ← precise_sites ws file src offset
  ds ← defs file src
  some (if has_sites precise then precise else earliest_sites ws file (earliest l ds none))
