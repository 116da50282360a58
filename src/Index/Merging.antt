-- ===== src/Index/Merging.antt =====
-- server/internal/index/index.go: `Namespace`, the merged declarations of a namespace with their memo.
-- `sort.Strings` is a parameter.
use tcl_lsp_nvim.Base.{List, [], ◌∷◌, Option, none, some, Bytes, map, see}
use tcl_lsp_nvim.Assoc.{Assoc, lookup, find_or, alter}
use tcl_lsp_nvim.Decls.{NamespaceInfo, Namespaces}
use tcl_lsp_nvim.Index.{NsMerged, Index, put}

-- The loops over `info.Path` and `info.Imports`: what is there already is not added.
unfoldable pub add_unseen : List Bytes → List Bytes → List Bytes
add_unseen out [] = out
add_unseen out (x ∷ xs) = add_unseen (see x out) xs

abbrev pub add_info : Option NamespaceInfo → NsMerged → NsMerged
add_info none acc = acc
add_info (some info) acc = record {
  path = add_unseen acc.path info.path;
  imports = add_unseen acc.imports info.imports;
}

-- The loop over the files.
unfoldable pub merge_files : Bytes → Assoc Namespaces → List Bytes → NsMerged → NsMerged
unfolding add_unseen lookup find_or
merge_files ns m [] acc = acc
merge_files ns m (f ∷ files) acc =
    merge_files ns m files (add_info (lookup ns (find_or [] f m)) acc)

-- What `Namespace` computes where the memo has nothing.
abbrev pub merged : (List Bytes → List Bytes) → Bytes → Index → NsMerged
merged sort ns ix =
    merge_files ns ix.file_ns (sort (map (λ e. e.0) ix.file_ns))
      (record { path = []; imports = [] })

abbrev pub memoized : (List Bytes → List Bytes) → Bytes → Index → Option NsMerged → NsMerged × Index
memoized sort ns ix (some m) = (m, ix)
memoized sort ns ix none =
    (merged sort ns ix, record ix { ns_cache = put ns (merged sort ns ix) ix.ns_cache })

unfoldable pub namespace_of : (List Bytes → List Bytes) → Bytes → Index → NsMerged × Index
unfolding merge_files lookup alter
namespace_of sort ns ix = memoized sort ns ix (lookup ns ix.ns_cache)
