-- ===== src/ReachSet/Joins.antt =====
-- What holds of the bindings in reaching sets, and which bindings a join has.
use tcl_lsp_nvim.Base.{
  Bool, true, false, ◌&&◌, ◌||◌, List, [], ◌∷◌, ◌++◌, ◌≡◌, refl, sym, subst, arith, Bytes, eql,
  eql_iff, All, All-append, if_cases, Bool-cases, inl, inr,
}
use tcl_lsp_nvim.Assoc.{find_or, alter, find_or-alter}
use tcl_lsp_nvim.Defs.{Definition}
use tcl_lsp_nvim.ReachSet.{
  ReachSet, same_site, has_site, append_dedup, add_binding, join_defs, join_set, join_sets,
  join_all,
}

module _ (Q : Bytes → Definition → Type 0) where
  -- Each binding of a name satisfies `Q` of the name.
  abbrev pub IsKeyed : ReachSet → Type 0
  IsKeyed = All (λ e. All (Q e.0) e.1)

  pub find_or-IsKeyed : (name : Bytes) (s : ReachSet) → IsKeyed s → All (Q name) (find_or [] name s)
  unfolding find_or
  find_or-IsKeyed name [] h = tt
  find_or-IsKeyed name ((k, ds) ∷ s) (h, hs) =
      if_cases (All (Q name)) (eql k name) _ _
        (λ e. subst (λ j. All (Q j) ds) ((eql_iff k name).0 e) h) λ _. find_or-IsKeyed name s hs

  pub alter-IsKeyed :
      (name : Bytes) (f : List Definition → List Definition) (s : ReachSet)
      → ((ds : List Definition) → All (Q name) ds → All (Q name) (f ds))
      → IsKeyed s
      → IsKeyed (alter [] name f s)
  unfolding alter
  alter-IsKeyed name f [] k h = (k [] tt, tt)
  alter-IsKeyed name f ((j, ds) ∷ s) k (h, hs) =
      if_cases IsKeyed (eql j name) _ _
        (λ e.
          let p = (eql_iff j name).0 e in
          (subst (λ i. All (Q i) (f ds)) (sym p) (k ds (subst (λ i. All (Q i) ds) p h)), hs))
        λ _. (h, alter-IsKeyed name f s k hs)

  append_dedup-All :
      (name : Bytes) (d : Definition) (ds : List Definition)
      → Q name d
      → All (Q name) ds
      → All (Q name) (append_dedup ds d)
  unfolding append_dedup
  append_dedup-All name d ds q h =
      if_cases (All (Q name)) (has_site ds d) _ _ (λ _. h)
        λ _. All-append (Q name) ds (d ∷ []) h (q, tt)

  pub add_binding-IsKeyed :
      (name : Bytes) (d : Definition) (s : ReachSet)
      → Q name d
      → IsKeyed s
      → IsKeyed (add_binding name d s)
  add_binding-IsKeyed name d s q =
      alter-IsKeyed name (λ ds. append_dedup ds d) s λ ds h. append_dedup-All name d ds q h

  join_defs-IsKeyed :
      (name : Bytes) (ds : List Definition) (s : ReachSet)
      → All (Q name) ds
      → IsKeyed s
      → IsKeyed (join_defs name ds s)
  unfolding join_defs
  join_defs-IsKeyed name [] s q h = h
  join_defs-IsKeyed name (d ∷ ds) s (q, qs) h =
      join_defs-IsKeyed name ds (add_binding name d s) qs (add_binding-IsKeyed name d s q h)

  join_set-IsKeyed : (t s : ReachSet) → IsKeyed t → IsKeyed s → IsKeyed (join_set t s)
  unfolding join_set
  join_set-IsKeyed [] s q h = h
  join_set-IsKeyed ((name, ds) ∷ t) s (q, qs) h =
      join_set-IsKeyed t (join_defs name ds s) qs (join_defs-IsKeyed name ds s q h)

  join_sets-IsKeyed :
      (ts : List ReachSet) (s : ReachSet) → All IsKeyed ts → IsKeyed s → IsKeyed (join_sets ts s)
  unfolding join_sets
  join_sets-IsKeyed [] s q h = h
  join_sets-IsKeyed (t ∷ ts) s (q, qs) h =
      join_sets-IsKeyed ts (join_set t s) qs (join_set-IsKeyed t s q h)

  pub join_all-IsKeyed : (ts : List ReachSet) → All IsKeyed ts → IsKeyed (join_all ts)
  join_all-IsKeyed ts h = join_sets-IsKeyed ts [] h tt

  pub join_two-IsKeyed : (s t : ReachSet) → IsKeyed s → IsKeyed t → IsKeyed (join_all (s ∷ t ∷ []))
  join_two-IsKeyed s t h k = join_all-IsKeyed (s ∷ t ∷ []) (h, (k, tt))

-- Whether the entries of a set have a binding of a name at the site of `d`.
unfoldable pub has_binding : Bytes → Definition → ReachSet → Bool
unfolding eql has_site
has_binding name d [] = false
has_binding name d ((k, ds) ∷ s) = eql k name && has_site ds d || has_binding name d s

unfoldable pub one_has_binding : Bytes → Definition → List ReachSet → Bool
unfolding has_binding
one_has_binding name d [] = false
one_has_binding name d (s ∷ ss) = has_binding name d s || one_has_binding name d ss

has_site-append :
    (ds : List Definition) (x d : Definition)
    → has_site (ds ++ x ∷ []) d ≡ (has_site ds d || same_site x d)
unfolding has_site
has_site-append [] x d = ground arith
has_site-append (y ∷ ds) x d = ground (arith, has_site-append ds x d)

has_site-same :
    (ds : List Definition) (x d : Definition) → same_site x d ≡ true → has_site ds x ≡ has_site ds d
unfolding has_site
has_site-same [] x d h = refl
has_site-same (y ∷ ds) x d h = ground (arith, has_site-same ds x d h)

has_site-append_dedup :
    (ds : List Definition) (x d : Definition)
    → has_site (append_dedup ds x) d ≡ (has_site ds d || same_site x d)
unfolding append_dedup
has_site-append_dedup ds x d =
    if_cases (λ l. has_site l d ≡ (has_site ds d || same_site x d)) (has_site ds x) _ _
      (λ e. elim (Bool-cases (same_site x d)) [
        | inl q ↦ let k = has_site-same ds x d q in ground arith
        | inr q ↦ ground arith
      ])
      λ e. has_site-append ds x d

-- The binding of a name that the set maps it to.
abbrev pub reaches : Bytes → Definition → ReachSet → Bool
reaches name d s = has_site (find_or [] name s) d

reaches-add_binding :
    (name k : Bytes) (x d : Definition) (s : ReachSet)
    → reaches name d (add_binding k x s) ≡ (reaches name d s || eql k name && same_site x d)
reaches-add_binding name k x d s = ground (
  arith,
  find_or-alter [] k name (λ list. append_dedup list x) s,
  has_site-append_dedup (find_or [] name s) x d,
)

reaches-join_defs :
    (name k : Bytes) (d : Definition) (ds : List Definition) (s : ReachSet)
    → reaches name d (join_defs k ds s) ≡ (reaches name d s || eql k name && has_site ds d)
unfolding join_defs has_site
reaches-join_defs name k d [] s = ground arith
reaches-join_defs name k d (x ∷ ds) s =
    ground
      (arith, reaches-join_defs name k d ds (add_binding k x s), reaches-add_binding name k x d s)

reaches-join_set :
    (name : Bytes) (d : Definition) (t s : ReachSet)
    → reaches name d (join_set t s) ≡ (reaches name d s || has_binding name d t)
unfolding join_set has_binding
reaches-join_set name d [] s = ground arith
reaches-join_set name d ((k, ds) ∷ t) s =
    ground (arith, reaches-join_set name d t (join_defs k ds s), reaches-join_defs name k d ds s)

reaches-join_sets :
    (name : Bytes) (d : Definition) (ts : List ReachSet) (s : ReachSet)
    → reaches name d (join_sets ts s) ≡ (reaches name d s || one_has_binding name d ts)
unfolding join_sets one_has_binding
reaches-join_sets name d [] s = ground arith
reaches-join_sets name d (t ∷ ts) s =
    ground (arith, reaches-join_sets name d ts (join_set t s), reaches-join_set name d t s)

-- The join of some sets maps a name to a binding at a site exactly where one of the sets has one
-- there: nothing is lost at a join, and nothing comes in.
pub reaches-join_all :
    (name : Bytes) (d : Definition) (ts : List ReachSet)
    → has_site (find_or [] name (join_all ts)) d ≡ one_has_binding name d ts
unfolding find_or has_site
reaches-join_all name d ts = reaches-join_sets name d ts []
