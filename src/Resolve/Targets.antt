-- ===== src/Resolve/Targets.antt =====
-- server/internal/resolve/resolve.go: `Definition`, `References` and `Declarations`. `none` is a panic of
-- the analyses.
use mathlib.Core.Option
use tcl_lsp_nvim.Base.{
  ℕ, Bool, true, false, ◌&&◌, ◌||◌, not, List, [], ◌∷◌, ◌++◌, map, Option, none, some, ◌==◌,
  if◌then◌else◌, Bytes, codes, length, flatten, eql, ◌>>=◌,
}
use tcl_lsp_nvim.Syntax.{in_proc}
use tcl_lsp_nvim.Defs.{DefKind, def_proc, def_namespace_var, def_class, Definition}
use tcl_lsp_nvim.Files.{ContextRef}
use tcl_lsp_nvim.ObjMethod.{is_within}
use tcl_lsp_nvim.Source.{defs, refs}
use tcl_lsp_nvim.Source.Receivers.{classes_at, method_call_at}
use tcl_lsp_nvim.Index.{Location}
use tcl_lsp_nvim.Resolve.{
  Workspace, has_sites, is_command, candidates, is_page_local, lookup_scoped, ref_fq,
}
use tcl_lsp_nvim.Resolve.Members.{method_in_class, ivar_in_class}
use tcl_lsp_nvim.Resolve.Locals.{
  Local, local_at, ref_at, local_definition, binds, is_local_use, local_location,
}

-- Whether a use stands in a method of a class.
abbrev pub in_method : ContextRef → Bool
in_method r = in_proc r.context.frame && not (length r.context.class == 0)

abbrev pub ivar_sites : Workspace → Bytes → Option ContextRef → List Location
ivar_sites ws name none = []
ivar_sites ws name (some r) = if in_method r then ivar_in_class ws r.context.class name else []

-- The branch of `Definition` for a proc's local.
unfoldable pub local_sites : Workspace → Bytes → Bytes → Local → ℕ → Option (List Location)
unfolding local_definition ref_at ivar_in_class
local_sites ws file src l offset = do
  locs ← local_definition ws file src l offset
  r ← ref_at file src offset
  some (if has_sites locs then locs else ivar_sites ws l.0 r)

-- The class of the method that `$this` stands in.
abbrev pub self_class : Option ContextRef → List Bytes
self_class none = []
self_class (some r) =
    if eql r.ref.name (codes "this") && in_method r then r.context.class ∷ [] else []

abbrev pub same_place : Location → Location → Bool
same_place l l' = eql l.file l'.file && l.name_start == l'.name_start && l.name_end == l'.name_end

unfoldable pub has_place : List Location → Location → Bool
unfolding eql
has_place [] l = false
has_place (l' ∷ locs) l = same_place l' l || has_place locs l

-- The set `seen` of places, as the locations that were kept.
unfoldable pub dedup_places : List Location → List Location → List Location
unfolding has_place
dedup_places out [] = out
dedup_places out (l ∷ locs) = dedup_places (if has_place out l then out else out ++ l ∷ []) locs

unfoldable pub method_sites : Workspace → Bytes → List Bytes → List Location
unfolding method_in_class dedup_places
method_sites ws name classes =
    dedup_places [] (flatten (map (λ c. method_in_class ws c name) classes))

-- The branch for `$obj method`.
unfoldable pub call_sites : Workspace → Bytes → Bytes → ℕ × Bytes → Option (List Location)
unfolding method_sites classes_at ref_at eql
call_sites ws file src (receiver, name) = do
  classes ← classes_at file src receiver
  r ← ref_at file src receiver
  some (method_sites ws name (if length classes == 0 then self_class r else classes))

unfoldable pub first_sites : Workspace → Bytes → List Bytes → List Location
unfolding lookup_scoped
first_sites ws file [] = []
first_sites ws file (name ∷ names) =
    let locs = lookup_scoped ws name file in
    let rest = first_sites ws file names in if has_sites locs then locs else rest

abbrev pub own_methods : Workspace → ContextRef → List Location
own_methods ws r =
    if is_command r.ref.kind && in_method r
    then method_in_class ws r.context.class r.ref.name
    else []

unfoldable pub ref_sites : Workspace → Bytes → Option ContextRef → List Location
unfolding method_in_class first_sites candidates
ref_sites ws file none = []
ref_sites ws file (some r) =
    let own = own_methods ws r in
    if has_sites own then own else first_sites ws file (candidates ws r)

unfoldable pub definition : Workspace → Bytes → Bytes → ℕ → Option (List Location)
unfolding local_at local_sites method_call_at call_sites ref_at ref_sites
definition ws file src offset = local_at file src offset >>= λ l. elim l [
  | some l' ↦ local_sites ws file src l' offset
  | none ↦ elim (method_call_at file src offset) [
    | some call ↦ call_sites ws file src call
    | none ↦ Option.map (ref_sites ws file) (ref_at file src offset)
  ]
]

abbrev pub is_workspace_kind : DefKind → Bool
is_workspace_kind def_proc = true
is_workspace_kind def_namespace_var = true
is_workspace_kind def_class = true
is_workspace_kind _ = false

-- The name of the definition that the offset stands in.
unfoldable pub defined_at : ℕ → List Definition → Option Bytes
defined_at offset [] = none
defined_at offset (d ∷ ds) =
    if is_workspace_kind d.kind && is_within offset d.name_start d.name_end
    then some d.name
    else defined_at offset ds

abbrev ref_target : Workspace → Bytes → Option ContextRef → Bytes
ref_target ws file none = []
ref_target ws file (some r) = ref_fq ws r file

unfoldable pub target_fq : Workspace → Bytes → Bytes → ℕ → Option Bytes
unfolding defined_at ref_at ref_fq defs
target_fq ws file src offset = do
  ds ← defs file src
  r ← ref_at file src offset
  some (elim (defined_at offset ds) [ some name ↦ name | none ↦ ref_target ws file r ])

-- `localReferences`: the places of the bindings and of the uses.
unfoldable pub bound_places : Bytes → Local → List Definition → List Location
unfolding eql
bound_places file l [] = []
bound_places file l (d ∷ ds) =
    let rest = bound_places file l ds in
    if binds l d then local_location file l.0 d.name_start d.name_end ∷ rest else rest

abbrev pub uses : Local → ContextRef → Bool
uses (name, scope) r = is_local_use r && eql r.ref.name name && r.context.scope == scope

unfoldable pub used_places : Bytes → Local → List ContextRef → List Location
unfolding eql
used_places file l [] = []
used_places file l (r ∷ rs) =
    let rest = used_places file l rs in
    if uses l r then local_location file l.0 r.ref.start r.ref.end ∷ rest else rest

unfoldable pub local_references : Bytes → Bytes → Local → Option (List Location)
unfolding dedup_places bound_places used_places defs refs
local_references file src l = do
  ds ← defs file src
  rs ← refs file src
  some (dedup_places [] (bound_places file l ds ++ used_places file l rs))

-- The kind of the first definition, or the zero value.
abbrev pub target_kind : List Location → DefKind
target_kind [] = def_proc
target_kind (l ∷ _) = l.kind

-- The function `scan` of `References`.
module _ (ws : Workspace) (target : Bytes) (kind : DefKind) where
  abbrev pub use_site : Bytes → ContextRef → Location
  use_site f r = record {
    file = f;
    name = target;
    kind = kind;
    name_start = r.ref.start;
    name_end = r.ref.end;
  }

  unfoldable pub scan_uses : Bytes → List ContextRef → List Location
  unfolding ref_fq eql
  scan_uses f [] = []
  scan_uses f (r ∷ rs) =
      let rest = scan_uses f rs in if eql (ref_fq ws r f) target then use_site f r ∷ rest else rest

  unfoldable pub scan_files : Bytes → List Bytes → List Location
  unfolding scan_uses eql
  scan_files file [] = []
  scan_files file (f ∷ fs) =
      let rest = scan_files file fs in
      if eql f file then rest else scan_uses f (ws.refs_of f) ++ rest

-- The references to a name, where `rs` are those of the live text.
unfoldable pub target_references : Workspace → Bytes → List ContextRef → Bytes → List Location
unfolding scan_files scan_uses lookup_scoped is_page_local
target_references ws file rs target =
    let kind = target_kind (lookup_scoped ws target file) in
    if length target == 0
    then []
    else scan_uses ws target kind file rs
      ++ (if is_page_local target file then [] else scan_files ws target kind file ws.files)

unfoldable pub references : Workspace → Bytes → Bytes → ℕ → Option (List Location)
unfolding local_at local_references target_fq target_references refs
references ws file src offset = local_at file src offset >>= λ l. elim l [
  | some l' ↦ local_references file src l'
  | none ↦ target_fq ws file src offset >>= λ target.
      Option.map (λ rs. target_references ws file rs target) (refs file src)
]

unfoldable pub declarations : Workspace → Bytes → Bytes → ℕ → Option (List Location)
unfolding local_at target_fq lookup_scoped bound_places defs
declarations ws file src offset = local_at file src offset >>= λ l. elim l [
  | some l' ↦ Option.map (bound_places file l') (defs file src)
  | none ↦
      Option.map (λ target. if length target == 0 then [] else lookup_scoped ws target file)
        (target_fq ws file src offset)
]
