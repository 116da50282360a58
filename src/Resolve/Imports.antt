-- ===== src/Resolve/Imports.antt =====
-- server/internal/resolve/resolve.go: a name in a namespace, and the names that an import pattern gives.
use mathlib.Core.List.{Memᴰ}
use mathlib.Core.List.Memᴰ
use mathlib.Core.Option
use tcl_lsp_nvim.Base.{
  ℕ, ◌+◌, true, false, ◌||◌, List, [], ◌∷◌, ◌++◌, ◌≡◌, ◌≢◌, refl, sym, ap, ◌∙◌, ◌⊎◌, inl, inr,
  arith, Option, none, some, Bytes, codes, length, take, drop, eql, eql_iff, last_index_of,
  Bool-cases, if_on, if_off, subst, ◌==◌, take-append, drop-append, drop-add,
}
use tcl_lsp_nvim.Syntax.{global_ns}
use tcl_lsp_nvim.Syntax.Names.{IsSplit, last_index_of-IsSplit, IsSplit-last_index_of}
use tcl_lsp_nvim.Resolve.{ns_part, split_last_segment, join_name, imported, import_candidates}

-- A name in a namespace: `::name` in the global one, and else `ns::name`.
abbrev pub IsIn : Bytes → Bytes → Bytes → Type 0
IsIn ns name x =
    ((ns ≡ codes "::") × (x ≡ codes "::" ++ name))
    ⊎ ((ns ≢ codes "::") × (x ≡ ns ++ (codes "::" ++ name)))

-- The namespace in front of the last `::` of an import pattern.
abbrev pub IsFrom : Bytes → Bytes → Type 0
IsFrom front ns = ((front ≡ []) × (ns ≡ codes "::")) ⊎ ((front ≢ []) × (ns ≡ front))

pub join_name-IsIn : (ns name : Bytes) → IsIn ns name (join_name ns name)
join_name-IsIn ns name = elim (Bool-cases (eql ns global_ns)) [
  | inl e ↦ inl ((eql_iff ns global_ns).0 e, if_on _ _ _ e)
  | inr e ↦ inr (λ q. let k = (eql_iff ns global_ns).1 q in cc, if_off _ _ _ e)
]

pub IsIn-join_name : (ns name x : Bytes) → IsIn ns name x → x ≡ join_name ns name
IsIn-join_name ns name x (inl (e, q)) = q ∙ sym (if_on _ _ _ ((eql_iff ns global_ns).1 e))
IsIn-join_name ns name x (inr (e, q)) = q ∙ sym (if_off _ _ _ differs)
  where
    differs : eql ns global_ns ≡ false
    differs = elim (Bool-cases (eql ns global_ns)) [
      | inl h ↦ absurd (e ((eql_iff ns global_ns).0 h))
      | inr h ↦ h
    ]

ns_part-IsFrom : (front : Bytes) → IsFrom front (ns_part front)
ns_part-IsFrom [] = inl (refl, refl)
ns_part-IsFrom (c ∷ front) =
    let filled : (length (c ∷ front) == 0) ≡ false = ground arith in
    inr ((λ q. cc), if_off _ _ _ filled)

IsFrom-ns_part : (front from : Bytes) → IsFrom front from → from ≡ ns_part front
IsFrom-ns_part [] from (inl (e, q)) = q
IsFrom-ns_part [] from (inr (e, q)) = absurd (e refl)
IsFrom-ns_part (c ∷ front) from (inl (e, q)) = cc
IsFrom-ns_part (c ∷ front) from (inr (e, q)) =
    let filled : (length (c ∷ front) == 0) ≡ false = ground arith in q ∙ sym (if_off _ _ _ filled)

-- The candidates of one pattern.
abbrev pub Pattern : Bytes → Bytes → Bytes → Type 0
Pattern name pattern x =
    (front : Bytes) × (last : Bytes) × (from : Bytes) × IsSplit pattern front last
    × ((last ≡ name) ⊎ (last ≡ codes "*"))
    × IsFrom front from
    × IsIn from name x

is_named :
    (last name : Bytes)
    → (eql last name || eql last (codes "*")) ≡ true
    → (last ≡ name) ⊎ (last ≡ codes "*")
is_named last name q = elim (Bool-cases (eql last name)) [
  | inl e ↦ inl ((eql_iff last name).0 e)
  | inr e ↦ inr ((eql_iff last (codes "*")).0 (ground arith))
]

named_is :
    (last name : Bytes)
    → (last ≡ name) ⊎ (last ≡ codes "*")
    → (eql last name || eql last (codes "*")) ≡ true
named_is last name (inl e) = let q = (eql_iff last name).1 e in ground arith
named_is last name (inr e) = let q = (eql_iff last (codes "*")).1 e in ground arith

split-Pattern :
    (name pattern x : Bytes) (o : Option ℕ)
    → last_index_of pattern global_ns ≡ o
    → Memᴰ x (imported name (Option.map (λ i. (ns_part (take i pattern), drop (i + 2) pattern)) o))
    → Pattern name pattern x
unfolding Option.bind
split-Pattern name pattern x none e m = elim m [ ]
split-Pattern name pattern x (some i) e m =
    let front = take i pattern in
    let last = drop (i + 2) pattern in
    let kept = join_name (ns_part front) name ∷ [] in
    elim (Bool-cases (eql last name || eql last (codes "*"))) [
      | inl q ↦
          let x_is = Memᴰ.eq_of_singleton (subst (Memᴰ x) (if_on _ kept [] q) m) in
          (
            front,
            last,
            ns_part front,
            last_index_of-IsSplit pattern i e,
            is_named last name q,
            ns_part-IsFrom front,
            subst (IsIn (ns_part front) name) (sym x_is) (join_name-IsIn (ns_part front) name),
          )
      | inr q ↦ absurd (Memᴰ.not-nil (subst (Memᴰ x) (if_off _ kept [] q) m))
    ]

Pattern-Mem :
    (name pattern x : Bytes)
    → Pattern name pattern x
    → Memᴰ x (imported name (split_last_segment pattern))
unfolding split_last_segment Option.bind
Pattern-Mem name pattern x (front, last, from, split, named, source, found) =
    let index =
      ap (λ p. last_index_of p global_ns) split.splits
      ∙ IsSplit-last_index_of front last split.unqualified split.no_colon in
    let first : take (length front) pattern ≡ front =
      ap (take (length front)) split.splits ∙ take-append front (b':' ∷ b':' ∷ last) in
    let second : drop (length front + 2) pattern ≡ last =
      drop-add (length front) 2 pattern
      ∙ ap (drop 2)
          (ap (drop (length front)) split.splits ∙ drop-append front (b':' ∷ b':' ∷ last)) in
    let joined =
      IsIn-join_name from name x found
      ∙ ap (λ n. join_name n name) (IsFrom-ns_part front from source) in
    subst
      (λ o.
        Memᴰ x
          (imported name (Option.map (λ i. (ns_part (take i pattern), drop (i + 2) pattern)) o)))
      (sym index)
      (subst (λ f. Memᴰ x (imported name (some (ns_part f, drop (length front + 2) pattern))))
        (sym first)
        (subst (λ l. Memᴰ x (imported name (some (ns_part front, l)))) (sym second)
          (subst (Memᴰ x)
            (sym (if_on _ (join_name (ns_part front) name ∷ []) [] (named_is last name named)))
            (Memᴰ.head joined))))

pub import_candidates-Pattern :
    (name x : Bytes) (patterns : List Bytes)
    → Memᴰ x (import_candidates name patterns)
    → (pattern : Bytes) × Memᴰ pattern patterns × Pattern name pattern x
unfolding import_candidates split_last_segment
import_candidates-Pattern name x [] m = elim m [ ]
import_candidates-Pattern name x (p ∷ patterns) m =
    elim (Memᴰ.append_cases (imported name (split_last_segment p)) m) [
      | inl h ↦ (p, Memᴰ.head refl, split-Pattern name p x (last_index_of p global_ns) refl h)
      | inr h ↦
          let (pattern, among, found) = import_candidates-Pattern name x patterns h in
          (pattern, Memᴰ.tail among, found)
    ]

pub Pattern-import_candidates :
    (name x pattern : Bytes) (patterns : List Bytes)
    → Memᴰ pattern patterns
    → Pattern name pattern x
    → Memᴰ x (import_candidates name patterns)
unfolding import_candidates
Pattern-import_candidates name x pattern [] m h = elim m [ ]
Pattern-import_candidates name x pattern (p ∷ patterns) (Memᴰ.head e) h =
    Memᴰ.append_left _
      (subst (λ q. Memᴰ x (imported name (split_last_segment q))) e (Pattern-Mem name pattern x h))
Pattern-import_candidates name x pattern (p ∷ patterns) (Memᴰ.tail m) h =
    Memᴰ.append_right (imported name (split_last_segment p))
      (Pattern-import_candidates name x pattern patterns m h)
