-- ===== src/Resolve/Workspaces.antt =====
-- server/internal/index/index.go: the methods of the index that the resolver calls.
use tcl_lsp_nvim.Base.{List, [], Bytes, map, Option}
use tcl_lsp_nvim.Assoc.{lookup, find_or}
use tcl_lsp_nvim.Files.{ContextRef}
use tcl_lsp_nvim.Index.{Index, ClassInfo, lookup_name}
use tcl_lsp_nvim.Index.Merging.{merged}
use tcl_lsp_nvim.Resolve.{Workspace}

abbrev pub file_refs_at : Bytes → Index → List ContextRef
file_refs_at path ix = find_or [] path ix.file_refs

abbrev pub class_at : Bytes → Index → Option ClassInfo
class_at fq ix = lookup fq ix.classes

abbrev pub source_at : Bytes → Index → Bytes
source_at path ix = find_or [] path ix.src

-- `sort.Strings` is a parameter.
abbrev pub files_of : (List Bytes → List Bytes) → Index → List Bytes
files_of sort ix = sort (map (λ e. e.0) ix.src)

-- The index, where a namespace is answered as with no memo.
unfoldable pub workspace_of : (List Bytes → List Bytes) → Index → Workspace
unfolding lookup_name find_or
workspace_of sort ix = record {
  lookup_fq = λ name. lookup_name name ix;
  classes = ix.classes;
  namespace = λ ns. merged sort ns ix;
  files = files_of sort ix;
  refs_of = λ path. file_refs_at path ix;
}
