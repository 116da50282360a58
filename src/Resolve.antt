-- ===== src/Resolve.antt =====
-- server/internal/resolve/resolve.go: the names that a reference may stand for, and the definitions
-- that they have. The resolver reads the index through `Workspace`; what the methods of the index
-- answer is in Resolve/Workspaces.
pub mod Workspaces
pub mod Members
pub mod Locals
pub mod Targets
pub mod Inherited
pub mod Explored
pub mod Sites
pub mod Nearest
pub mod Uses
pub mod Candidates
pub mod Imports
pub mod Named
use mathlib.Core.Option
use tcl_lsp_nvim.Base.{
  ℕ, ◌+◌, Bool, true, false, ◌&&◌, ◌||◌, not, List, [], ◌∷◌, ◌++◌, map, Option, none, some, ◌==◌,
  if◌then◌else◌, Bytes, codes, length, take, drop, flatten, eql, one_of, see, has_prefix,
  last_index_of,
}
use tcl_lsp_nvim.Assoc.{Assoc}
use tcl_lsp_nvim.Syntax.{FrameKind, in_namespace, global_ns, qualify_name}
use tcl_lsp_nvim.Refs.{RefKind, ref_command, Reference}
use tcl_lsp_nvim.Files.{ContextRef}
use tcl_lsp_nvim.Source.{is_rvt}
use tcl_lsp_nvim.Index.{Location, ClassInfo, NsMerged}
use tcl_lsp_nvim.ClassOf.{contains}

-- The index as the resolver reads it.
pub record Workspace : Type 0 where
  pub lookup_fq : Bytes → List Location
  pub classes : Assoc ClassInfo
  pub namespace : Bytes → NsMerged
  pub files : List Bytes
  pub refs_of : Bytes → List ContextRef

unfoldable pub is_qualified : Bytes → Bool
unfolding contains
is_qualified name = contains name global_ns

-- The namespace that a qualified name starts with, or `::`.
abbrev pub ns_part : Bytes → Bytes
ns_part s = if length s == 0 then global_ns else s

abbrev split_at : Bytes → ℕ → Bytes × Bytes
split_at qname i = (ns_part (take i qname), drop (i + 2) qname)

unfoldable pub split_last_segment : Bytes → Option (Bytes × Bytes)
unfolding last_index_of
split_last_segment qname = Option.map (split_at qname) (last_index_of qname global_ns)

-- A name in a namespace, as the source joins them.
abbrev pub join_name : Bytes → Bytes → Bytes
join_name ns name = if eql ns global_ns then global_ns ++ name else ns ++ (global_ns ++ name)

abbrev imported : Bytes → Option (Bytes × Bytes) → List Bytes
imported name none = []
imported name (some (src, last)) =
    if eql last name || eql last (codes "*") then join_name src name ∷ [] else []

unfoldable pub import_candidates : Bytes → List Bytes → List Bytes
unfolding split_last_segment
import_candidates name [] = []
import_candidates name (imp ∷ imports) =
    imported name (split_last_segment imp) ++ import_candidates name imports

-- The loop of `dedup`, where `out` has what was kept.
unfoldable pub dedup_into : List Bytes → List Bytes → List Bytes
unfolding one_of
dedup_into out [] = out
dedup_into out (s ∷ names) = dedup_into (see s out) names

abbrev pub dedup : List Bytes → List Bytes
dedup = dedup_into []

-- The candidates of a bare command name, before `dedup`.
abbrev pub bare_candidates : Workspace → Bytes → Bytes → List Bytes
bare_candidates ws name ns =
    qualify_name name ns
    ∷ (import_candidates name (ws.namespace ns).imports
        ++ (map (λ p. p ++ (global_ns ++ name)) (ws.namespace ns).path
            ++ (if eql ns global_ns then [] else (global_ns ++ name) ∷ [])))

unfoldable pub command_candidates : Workspace → Bytes → Bytes → List Bytes
unfolding is_qualified qualify_name import_candidates dedup_into
command_candidates ws name ns =
    if is_qualified name then qualify_name name ns ∷ [] else dedup (bare_candidates ws name ns)

unfoldable pub variable_candidates : Bytes → Bytes → FrameKind → List Bytes
unfolding is_qualified qualify_name eql
variable_candidates name ns frame =
    if is_qualified name
    then qualify_name name ns ∷ []
    else if in_namespace frame
    then join_name ns name ∷ []
    else []

abbrev pub is_command : RefKind → Bool
is_command ref_command = true
is_command _ = false

unfoldable pub candidates : Workspace → ContextRef → List Bytes
unfolding command_candidates variable_candidates
candidates ws r =
    if is_command r.ref.kind
    then command_candidates ws r.ref.name r.context.ns
    else variable_candidates r.ref.name r.context.ns r.context.frame

unfoldable pub in_file : Bytes → List Location → List Location
unfolding eql
in_file file [] = []
in_file file (l ∷ locs) = let rest = in_file file locs in if eql l.file file then l ∷ rest else rest

-- Whether a name, seen from a file, is local to the page.
unfoldable pub is_page_local : Bytes → Bytes → Bool
unfolding is_rvt has_prefix
is_page_local name file = is_rvt file && has_prefix name (codes "::request::")

unfoldable pub lookup_scoped : Workspace → Bytes → Bytes → List Location
unfolding is_page_local in_file
lookup_scoped ws name file =
    let locs = ws.lookup_fq name in if is_page_local name file then in_file file locs else locs

abbrev pub has_sites : List Location → Bool
has_sites locs = not (length locs == 0)

-- The first candidate that has definitions, of the candidates left.
unfoldable pub first_defined : Workspace → Bytes → List Bytes → Option Bytes
unfolding lookup_scoped
first_defined ws file [] = none
first_defined ws file (name ∷ names) =
    if has_sites (lookup_scoped ws name file) then some name else first_defined ws file names

-- The first candidate where none is defined, or the empty string.
abbrev pub primary : List Bytes → Bytes
primary [] = []
primary (name ∷ _) = name

abbrev pub or_primary : List Bytes → Option Bytes → Bytes
or_primary names none = primary names
or_primary names (some name) = name

unfoldable pub ref_fq : Workspace → ContextRef → Bytes → Bytes
unfolding candidates first_defined
ref_fq ws r file = or_primary (candidates ws r) (first_defined ws file (candidates ws r))
