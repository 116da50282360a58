-- ===== src/Resolve/Named.antt =====
-- server/internal/resolve/resolve.go: the names that a command name can stand for in a namespace, as TCL has
-- them, beside the list that `commandCandidates` makes of them.
use mathlib.Core.List.{Memᴰ}
use mathlib.Core.List.Memᴰ
use mathlib.Core.Option
use tcl_lsp_nvim.Base.{
  ℕ, suc, true, false, List, [], ◌∷◌, ◌++◌, map, ◌≡◌, refl, sym, ap, ◌∙◌, ◌⊎◌, inl, inr, Option,
  none, some, if◌then◌else◌, Bytes, codes, eql, eql_iff, has_prefix, index_of, Bool-cases, if_on,
  if_off, subst,
}
use tcl_lsp_nvim.Syntax.{global_ns, qualify_name}
use tcl_lsp_nvim.Syntax.Names.{IsSplit}
use tcl_lsp_nvim.ClassOf.{contains}
use tcl_lsp_nvim.Resolve.{Workspace, is_qualified, import_candidates, bare_candidates}
use tcl_lsp_nvim.Resolve.Imports.{
  IsIn, IsFrom, join_name-IsIn, IsIn-join_name, import_candidates-Pattern,
  Pattern-import_candidates,
}

-- What a name is in the current namespace: itself where it starts with `::`.
abbrev pub IsAt : Bytes → Bytes → Bytes → Type 0
IsAt ns name x =
    ((has_prefix name (codes "::") ≡ true) × (x ≡ name))
    ⊎ ((has_prefix name (codes "::") ≡ false) × IsIn ns name x)

-- What a name without `::` can stand for besides: what an import pattern of the namespace with that last segment or with
-- `*` gives, the name below an entry of the namespace's path, and the global name.
pub data IsElsewhere (ws : Workspace) (ns name : Bytes) : Bytes → Type 0 where
  by_import :
      (pattern front last from x : Bytes)
      → Memᴰ pattern (ws.namespace ns).imports
      → IsSplit pattern front last
      → (last ≡ name) ⊎ (last ≡ codes "*")
      → IsFrom front from
      → IsIn from name x
      → IsElsewhere ws ns name x
  by_path :
      (entry : Bytes)
      → Memᴰ entry (ws.namespace ns).path
      → IsElsewhere ws ns name (entry ++ (codes "::" ++ name))
  global : IsElsewhere ws ns name (codes "::" ++ name)

pub qualify_name-IsAt : (ns name : Bytes) → IsAt ns name (qualify_name name ns)
unfolding qualify_name
qualify_name-IsAt ns name = elim (Bool-cases (has_prefix name global_ns)) [
  | inl e ↦ inl (e, if_on _ _ _ e)
  | inr e ↦ inr (e, subst (IsIn ns name) (sym (if_off _ _ _ e)) (join_name-IsIn ns name))
]

pub IsAt-qualify_name : (ns name x : Bytes) → IsAt ns name x → x ≡ qualify_name name ns
unfolding qualify_name
IsAt-qualify_name ns name x (inl (e, q)) = q ∙ sym (if_on _ _ _ e)
IsAt-qualify_name ns name x (inr (e, q)) = IsIn-join_name ns name x q ∙ sym (if_off _ _ _ e)

bare-has_prefix : (name : Bytes) → is_qualified name ≡ false → has_prefix name (codes "::") ≡ false
unfolding is_qualified contains index_of
bare-has_prefix [] h = refl
bare-has_prefix (c ∷ name) h = elim (Bool-cases (has_prefix (c ∷ name) (codes "::"))) [
  | inl e ↦
      let found = if_on _ (some 0) (Option.map suc (index_of name (codes "::"))) e in
      let clash = sym h ∙ ap (λ (o : Option ℕ). elim o [ none ↦ false | some i ↦ true ]) found in cc
  | inr e ↦ e
]

module _ (ws : Workspace) (ns name : Bytes) where
  abbrev below : Bytes → Bytes
  below entry = entry ++ (global_ns ++ name)

  abbrev rest : List Bytes
  rest = if eql ns global_ns then [] else (global_ns ++ name) ∷ []

  below_path : (x : Bytes) → Memᴰ x (map below (ws.namespace ns).path) → IsElsewhere ws ns name x
  below_path x m =
      let (entry, among, e) = Memᴰ.of_map below (ws.namespace ns).path m in
      subst (IsElsewhere ws ns name) e (by_path entry among)

  in_rest : (x : Bytes) → Memᴰ x rest → IsElsewhere ws ns name x
  in_rest x m = elim (Bool-cases (eql ns global_ns)) [
    | inl e ↦ absurd (Memᴰ.not-nil (subst (Memᴰ x) (if_on _ [] ((global_ns ++ name) ∷ []) e) m))
    | inr e ↦
        subst (IsElsewhere ws ns name)
          (sym (Memᴰ.eq_of_singleton (subst (Memᴰ x) (if_off _ [] ((global_ns ++ name) ∷ []) e) m)))
          global
  ]

  -- The list of candidates of a bare name has what the name can stand for and nothing else.
  pub bare_candidates-named :
      (x : Bytes) → Memᴰ x (bare_candidates ws name ns) → IsAt ns name x ⊎ IsElsewhere ws ns name x
  bare_candidates-named x (Memᴰ.head e) =
      inl (subst (IsAt ns name) (sym e) (qualify_name-IsAt ns name))
  bare_candidates-named x (Memᴰ.tail m) =
      elim (Memᴰ.append_cases (import_candidates name (ws.namespace ns).imports) m) [
        | inl h ↦
            let (pattern, among, (front, last, from, split, named, source, found)) =
              import_candidates-Pattern name x (ws.namespace ns).imports h in
            inr (by_import pattern front last from x among split named source found)
        | inr h ↦ elim (Memᴰ.append_cases (map below (ws.namespace ns).path) h) [
          | inl k ↦ inr (below_path x k)
          | inr k ↦ inr (in_rest x k)
        ]
      ]

  named-bare_candidates :
      (x : Bytes)
      → has_prefix name (codes "::") ≡ false
      → IsElsewhere ws ns name x
      → Memᴰ x (bare_candidates ws name ns)
  named-bare_candidates x h (by_import pattern front last from _ among split named source found) =
      Memᴰ.tail (
        Memᴰ.append_left _ (
          Pattern-import_candidates name x pattern (ws.namespace ns).imports among
            (front, last, from, split, named, source, found)))
  named-bare_candidates _ h (by_path entry among) = Memᴰ.tail (
      Memᴰ.append_right (import_candidates name (ws.namespace ns).imports)
        (Memᴰ.append_left rest (Memᴰ.map below among)))
  named-bare_candidates _ h global = elim (Bool-cases (eql ns global_ns)) [
    | inl e ↦ Memᴰ.head (
        IsAt-qualify_name ns name (global_ns ++ name)
          (inr (h, inl ((eql_iff ns global_ns).0 e, refl))))
    | inr e ↦ Memᴰ.tail (
        Memᴰ.append_right (import_candidates name (ws.namespace ns).imports) (
          Memᴰ.append_right (map below (ws.namespace ns).path) (
            subst (Memᴰ (global_ns ++ name)) (sym (if_off _ [] ((global_ns ++ name) ∷ []) e))
              (Memᴰ.head refl))))
  ]

  pub IsNamed-bare_candidates :
      (x : Bytes)
      → is_qualified name ≡ false
      → IsAt ns name x ⊎ IsElsewhere ws ns name x
      → Memᴰ x (bare_candidates ws name ns)
  IsNamed-bare_candidates x h (inl e) = Memᴰ.head (IsAt-qualify_name ns name x e)
  IsNamed-bare_candidates x h (inr e) = named-bare_candidates x (bare-has_prefix name h) e
