-- ===== src/Lsp/Documents/Stored.antt =====
-- server/internal/lsp/server.go and server/internal/index/index.go: the source of each file in the index.
use mathlib.Core.Option
use tcl_lsp_nvim.Base.{
  if_cases, ◌==◌, length, List, [], ◌∷◌, ◌≡◌, refl, ap, ◌∙◌, arith, Option, none, some,
  if◌then◌else◌, Bytes, length, ◌==◌, eql, eql_iff, if_cases,
}
use tcl_lsp_nvim.Assoc.{Assoc, lookup, alter, delete, lookup-alter}
use tcl_lsp_nvim.Defs.{
  DefKind, def_proc, def_namespace_var, def_local, def_global_link, def_class, def_method, def_ivar,
  Definition,
}
use tcl_lsp_nvim.Decls.{Classes}
use tcl_lsp_nvim.Files.{FileIndex}
use tcl_lsp_nvim.Source.{index_unit}
use tcl_lsp_nvim.Index.{
  Index, put, remove_file, index_kind, index_defs, index_classes, add_unit, index_file,
}
use tcl_lsp_nvim.Index.Directory.{Entry, unreadable, directory, regular, is_source_file}
use tcl_lsp_nvim.Lsp.{Server}
use tcl_lsp_nvim.Lsp.Documents.{
  Outcome, unchanged, index_found, index_walk, index_workspace, outcome_of, index_at,
}

pub lookup-delete :
    {V : Type 0} (k j : Bytes) (m : Assoc V)
    → lookup j (delete k m) ≡ (if eql k j then none else lookup j m)
unfolding lookup delete
lookup-delete k j [] = ground arith
lookup-delete k j ((i, v) ∷ m) =
    ground (arith, eql_iff k j, eql_iff i k, eql_iff i j, lookup-delete k j m)

index_kind-src :
    (k : DefKind) (path : Bytes) (d : Definition) (ix : Index)
    → (index_kind k path d ix).src ≡ ix.src
unfolding index_kind
index_kind-src def_method path d ix =
    if_cases (λ (jx : Index). jx.src ≡ ix.src) (length d.class == 0) _ _ (λ _. refl) λ _. refl
index_kind-src def_ivar path d ix =
    if_cases (λ (jx : Index). jx.src ≡ ix.src) (length d.class == 0) _ _ (λ _. refl) λ _. refl
index_kind-src def_proc path d ix = refl
index_kind-src def_namespace_var path d ix = refl
index_kind-src def_class path d ix = refl
index_kind-src def_local path d ix = refl
index_kind-src def_global_link path d ix = refl

index_defs-src :
    (path : Bytes) (ds : List Definition) (ix : Index) → (index_defs path ds ix).src ≡ ix.src
unfolding index_defs
index_defs-src path [] ix = refl
index_defs-src path (d ∷ ds) ix = index_defs-src path ds _ ∙ index_kind-src d.kind path d ix

index_classes-src :
    (path : Bytes) (m : Classes) (ix : Index) → (index_classes path m ix).src ≡ ix.src
unfolding index_classes
index_classes-src path [] ix = refl
index_classes-src path ((fq, bases) ∷ m) ix = index_classes-src path m _

-- A file put back after `RemoveFile`.
lookup-put :
    (k j v : Bytes) (m : Assoc Bytes)
    → lookup j (put k v (delete k m)) ≡ (if eql k j then some v else lookup j m)
unfolding alter delete lookup
lookup-put k j v m =
    ground (arith, eql_iff k j, lookup-alter [] k j (λ _. v) (delete k m), lookup-delete k j m)

outcome_of-src :
    (path content : Bytes) (docs : Assoc Bytes) (ix : Index) (unit : Option FileIndex) (f : Bytes)
    → lookup f
        (outcome_of path content docs ix
          (Option.map (λ u. add_unit path content u (remove_file path ix)) unit)).after.ix.src
      ≡ (if eql path f then some content else lookup f ix.src)
unfolding remove_file delete
outcome_of-src path content docs ix none f = lookup-put path f content ix.src
outcome_of-src path content docs ix (some unit) f =
    ap (lookup f) (index_classes-src path unit.classes _ ∙ index_defs-src path unit.defs _)
    ∙ lookup-put path f content ix.src

-- The stored source of each file behind `IndexFile`, whether or not its analysis panics.
pub lookup-index_at :
    (path content : Bytes) (docs : Assoc Bytes) (ix : Index) (f : Bytes)
    → lookup f (index_at path content docs ix).after.ix.src
      ≡ (if eql path f then some content else lookup f ix.src)
unfolding index_at index_file
lookup-index_at path content docs ix f =
    outcome_of-src path content docs ix (index_unit path content) f

outcome_of-docs :
    (path content : Bytes) (docs : Assoc Bytes) (ix : Index) (jx : Option Index)
    → (outcome_of path content docs ix jx).after.docs ≡ docs
outcome_of-docs path content docs ix none = refl
outcome_of-docs path content docs ix (some jx) = refl

pub index_at-docs :
    (path content : Bytes) (docs : Assoc Bytes) (ix : Index)
    → (index_at path content docs ix).after.docs ≡ docs
unfolding index_at
index_at-docs path content docs ix =
    outcome_of-docs path content docs ix (index_file path content ix)

pub lookup-remove_file :
    (path f : Bytes) (ix : Index)
    → lookup f (remove_file path ix).src ≡ (if eql path f then none else lookup f ix.src)
unfolding remove_file
lookup-remove_file path f ix = lookup-delete path f ix.src

index_found-docs : (e : Entry) (sv : Server) → (index_found e sv).after.docs ≡ sv.docs
unfolding index_found
index_found-docs (regular path (some content)) sv =
    if_cases (λ (r : Outcome). r.after.docs ≡ sv.docs) (is_source_file path)
      (index_at path content sv.docs sv.ix) (unchanged sv)
      (λ _. index_at-docs path content sv.docs sv.ix) λ _. refl
index_found-docs (regular path none) sv = refl
index_found-docs (unreadable path) sv = refl
index_found-docs (directory name) sv = refl

index_walk-docs : (es : List Entry) (sv : Server) → (index_walk es sv).after.docs ≡ sv.docs
unfolding index_walk
index_walk-docs [] sv = refl
index_walk-docs (e ∷ es) sv =
    let o = index_found e sv in
    if_cases (λ (r : Outcome). r.after.docs ≡ sv.docs) o.panicked o (index_walk es o.after)
      (λ _. index_found-docs e sv) λ _. index_walk-docs es o.after ∙ index_found-docs e sv

pub index_workspace-docs :
    (root : Bytes) (walk : Bytes → List Entry) (sv : Server)
    → (index_workspace root walk sv).after.docs ≡ sv.docs
unfolding index_workspace
index_workspace-docs root walk sv =
    if_cases (λ (r : Outcome). r.after.docs ≡ sv.docs) (length root == 0) (unchanged sv)
      (index_walk (walk root) sv) (λ _. refl) λ _. index_walk-docs (walk root) sv
