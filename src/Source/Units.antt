-- ===== src/Source/Units.antt =====
-- `IndexUnit` against the functions that return one analysis each.
use mathlib.Core.Option
use tcl_lsp_nvim.Base.{
  if_on, if_off, true, false, ◌≡◌, refl, ap, sym, ◌∙◌, Option, some, none, Bytes, Bool-cases, inl,
  inr, subst,
}
use tcl_lsp_nvim.Rvt.{extract}
use tcl_lsp_nvim.Files.{FileIndex, file_all}
use tcl_lsp_nvim.Files.Agreement.{file_all-fields}
use tcl_lsp_nvim.Source.{
  is_rvt, source_unit, source_defs, source_refs, defs, refs, namespaces, classes, index_unit,
}

-- The four analyses of a file, each from its own function.
pub record HasParts (path content : Bytes) (u : FileIndex) : Type 0 where
  pub same_defs : defs path content ≡ some u.defs
  pub same_refs : refs path content ≡ some u.refs
  pub same_namespaces : namespaces path content ≡ some u.namespaces
  pub same_classes : classes path content ≡ some u.classes

script-HasParts :
    (path content : Bytes) (u : FileIndex)
    → is_rvt path ≡ false
    → file_all content ≡ some u
    → HasParts path content u
unfolding defs refs namespaces classes
script-HasParts path content u b e =
    let (d, r, n, c) = file_all-fields content u e in
    record {
      same_defs = rw b d;
      same_refs = rw b r;
      same_namespaces = rw b n;
      same_classes = rw b c;
    }

template-HasParts :
    (path content : Bytes) (fi : FileIndex)
    → is_rvt path ≡ true
    → file_all (extract content).script ≡ some fi
    → HasParts path content (source_unit (extract content) fi)
unfolding defs refs namespaces classes
template-HasParts path content fi b e =
    let (d, r, n, c) = file_all-fields (extract content).script fi e in
    record {
      same_defs = rw b (ap (Option.map (source_defs (extract content))) d);
      same_refs = rw b (ap (Option.map (source_refs (extract content))) r);
      same_namespaces = rw b n;
      same_classes = rw b c;
    }

map-some :
    {A B : Type 0} (f : A → B) (o : Option A) (y : B)
    → Option.map f o ≡ some y
    → (x : A) × (o ≡ some x) × (f x ≡ y)
map-some f none y e = cc
map-some f (some x) y e = (x, refl, cc)

-- Where the analysis of a file for the index has a result, its four fields are the results of
-- the four functions that return one analysis each, for templates and for scripts.
pub index_unit-HasParts :
    (path content : Bytes) (u : FileIndex)
    → index_unit path content ≡ some u
    → HasParts path content u
unfolding index_unit
index_unit-HasParts path content u e = elim (Bool-cases (is_rvt path)) [
  | inl b ↦
      let (fi, h, k) =
        map-some (source_unit (extract content)) (file_all (extract content).script) u
          (sym (if_on (is_rvt path) _ _ b) ∙ e) in
      subst (HasParts path content) k (template-HasParts path content fi b h)
  | inr b ↦ script-HasParts path content u b (sym (if_off (is_rvt path) _ _ b) ∙ e)
]
