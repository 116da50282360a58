-- ===== src/Index/Memo.antt =====
-- The memo of `Namespace` is never out of date.
use mathlib.Core.Option
use tcl_lsp_nvim.Base.{
  List, [], ◌∷◌, ◌≡◌, refl, sym, ap, Option, none, some, Bytes, eql, eql_iff, if_cases, length,
  ◌==◌, subst,
}
use tcl_lsp_nvim.Assoc.{lookup, lookup-alter}
use tcl_lsp_nvim.Defs.{
  DefKind, def_proc, def_namespace_var, def_local, def_global_link, def_class, def_method, def_ivar,
  Definition,
}
use tcl_lsp_nvim.Decls.{Classes}
use tcl_lsp_nvim.Files.{FileIndex}
use tcl_lsp_nvim.Source.{index_unit}
use tcl_lsp_nvim.Index.{
  NsMerged, Index, put, remove_file, index_kind, index_defs, index_classes, add_unit, index_file,
}
use tcl_lsp_nvim.Index.Merging.{merged, memoized, namespace_of}

module _ (sort : List Bytes → List Bytes) where
  -- An entry of the memo, if there is one, is what would be computed now.
  abbrev pub IsFresh : Index → Bytes → Option NsMerged → Type 0
  IsFresh ix ns none = Unit
  IsFresh ix ns (some m) = m ≡ merged sort ns ix

  abbrev pub IsMemoized : Index → Type 0
  IsMemoized ix = (ns : Bytes) → IsFresh ix ns (lookup ns ix.ns_cache)

  put-IsFresh :
      (ix : Index) (ns j : Bytes)
      → IsMemoized ix
      → IsFresh ix j (lookup j (put ns (merged sort ns ix) ix.ns_cache))
  put-IsFresh ix ns j h =
      rw (lookup-alter (merged sort ns ix) ns j (λ _. merged sort ns ix) ix.ns_cache) (
        if_cases (IsFresh ix j) (eql ns j) _ _
          (λ e. ap (λ k. merged sort k ix) ((eql_iff ns j).0 e)) λ _. h j)

  memoized-IsMemoized :
      (ns : Bytes) (ix : Index) (o : Option NsMerged)
      → IsMemoized ix
      → IsFresh ix ns o
      → ((memoized sort ns ix o).0 ≡ merged sort ns ix) × IsMemoized (memoized sort ns ix o).1
  memoized-IsMemoized ns ix (some m) h e = (e, h)
  memoized-IsMemoized ns ix none h e = (refl, λ j. put-IsFresh ix ns j h)

  -- Where no entry of the memo is out of date, `Namespace` returns what it would compute with no memo,
  -- and no entry of the memo is out of date after it.
  pub namespace_of-IsMemoized :
      (ns : Bytes) (ix : Index)
      → IsMemoized ix
      → ((namespace_of sort ns ix).0 ≡ merged sort ns ix) × IsMemoized (namespace_of sort ns ix).1
  unfolding namespace_of
  namespace_of-IsMemoized ns ix h = memoized-IsMemoized ns ix (lookup ns ix.ns_cache) h (h ns)

  -- Nothing is memoized.
  abbrev IsCleared : Index → Type 0
  IsCleared ix = ix.ns_cache ≡ []

  IsCleared-IsMemoized : (ix : Index) → IsCleared ix → IsMemoized ix
  unfolding lookup
  IsCleared-IsMemoized ix e ns = subst (λ m. IsFresh ix ns (lookup ns m)) (sym e) tt

  index_kind-IsCleared :
      (k : DefKind) (path : Bytes) (d : Definition) (ix : Index)
      → IsCleared ix
      → IsCleared (index_kind k path d ix)
  unfolding index_kind
  index_kind-IsCleared def_method path d ix h =
      if_cases IsCleared (length d.class == 0) _ _ (λ _. h) λ _. h
  index_kind-IsCleared def_ivar path d ix h =
      if_cases IsCleared (length d.class == 0) _ _ (λ _. h) λ _. h
  index_kind-IsCleared def_proc path d ix h = h
  index_kind-IsCleared def_namespace_var path d ix h = h
  index_kind-IsCleared def_class path d ix h = h
  index_kind-IsCleared def_local path d ix h = h
  index_kind-IsCleared def_global_link path d ix h = h

  index_defs-IsCleared :
      (path : Bytes) (ds : List Definition) (ix : Index)
      → IsCleared ix
      → IsCleared (index_defs path ds ix)
  unfolding index_defs
  index_defs-IsCleared path [] ix h = h
  index_defs-IsCleared path (d ∷ ds) ix h =
      index_defs-IsCleared path ds _ (index_kind-IsCleared d.kind path d ix h)

  index_classes-IsCleared :
      (path : Bytes) (m : Classes) (ix : Index) → IsCleared ix → IsCleared (index_classes path m ix)
  unfolding index_classes
  index_classes-IsCleared path [] ix h = h
  index_classes-IsCleared path ((fq, bases) ∷ m) ix h = index_classes-IsCleared path m _ h

  pub remove_file-IsMemoized : (path : Bytes) (ix : Index) → IsMemoized (remove_file path ix)
  unfolding remove_file lookup
  remove_file-IsMemoized path ix ns = tt

  remove_file-IsCleared : (path : Bytes) (ix : Index) → IsCleared (remove_file path ix)
  unfolding remove_file
  remove_file-IsCleared path ix = refl

  -- If the analyses of a file have a result, indexing it gives a table with no entry of the memo out
  -- of date, whatever was memoized before.
  pub index_file-IsMemoized :
      (path content : Bytes) (ix : Index) (u : FileIndex)
      → index_unit path content ≡ some u
      → (jx : Index) × (index_file path content ix ≡ some jx) × IsMemoized jx
  unfolding index_file
  index_file-IsMemoized path content ix u e = (
    _,
    ap (Option.map (λ unit. add_unit path content unit (remove_file path ix))) e,
    IsCleared-IsMemoized (add_unit path content u (remove_file path ix)) (
        index_classes-IsCleared path u.classes _
          (index_defs-IsCleared path u.defs _ (remove_file-IsCleared path ix))),
  )
