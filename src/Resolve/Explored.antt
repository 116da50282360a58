-- ===== src/Resolve/Explored.antt =====
-- The search through the bases leaves no class out: where it finds nothing, each class it saw has been
-- looked at with all of its bases. The fuel counts the classes of the table that are not seen yet.
use tcl_lsp_nvim.Base.{
  ℕ, zero, suc, ◌<◌, ◌≤◌, true, false, List, [], ◌∷◌, ◌≡◌, ◌≢◌, ◌⊎◌, inl, inr, refl, sym, ap, ◌∙◌,
  subst, arith, Option, none, some, if◌then◌else◌, Bytes, length, eql, eql_iff, eql_refl, one_of,
  Bool-cases, if_cases,
}
use tcl_lsp_nvim.Assoc.{Assoc, lookup}
use tcl_lsp_nvim.Index.{Location, ClassInfo}
use tcl_lsp_nvim.Resolve.{has_sites}
use tcl_lsp_nvim.Resolve.Members.{Seen, Search, search_bases, search_class, search, find_member}
use tcl_lsp_nvim.Resolve.Inherited.{bases_of, own, Inherits, itself, base, search-IsFrom}

abbrev IsSub : Seen → Seen → Type 0
IsSub s t = (x : Bytes) → one_of x s ≡ true → one_of x t ≡ true

one_of_here : (s : Bytes) (names : List Bytes) → one_of s (s ∷ names) ≡ true
unfolding one_of
one_of_here s names = ground (arith, eql_refl s)

-- The number of classes of the table that are not seen.
unseen : Assoc ClassInfo → Seen → ℕ
unseen [] seen = 0
unseen ((k, ci) ∷ m) seen = if one_of k seen then unseen m seen else suc (unseen m seen)

unseen-le : (m : Assoc ClassInfo) (seen : Seen) → unseen m seen ≤ length m
unfolding unseen
unseen-le [] seen = omega arith
unseen-le ((k, ci) ∷ m) seen = ground (arith, unseen-le m seen)

unseen_mono : (m : Assoc ClassInfo) (s t : Seen) → IsSub s t → unseen m t ≤ unseen m s
unfolding unseen
unseen_mono [] s t h = omega arith
unseen_mono ((k, ci) ∷ m) s t h = ground (arith, unseen_mono m s t h, h k)

unseen-see : (m : Assoc ClassInfo) (c : Bytes) (seen : Seen) → unseen m (c ∷ seen) ≤ unseen m seen
unfolding one_of
unseen-see m c seen = unseen_mono m seen (c ∷ seen) λ x e. ground arith

unseen-lt :
    (m : Assoc ClassInfo) (c : Bytes) (seen : Seen) (ci : ClassInfo)
    → lookup c m ≡ some ci
    → one_of c seen ≡ false
    → unseen m (c ∷ seen) < unseen m seen
unfolding unseen lookup one_of
unseen-lt [] c seen ci h e = ground arith
unseen-lt ((k, i) ∷ m) c seen ci h e = elim (Bool-cases (eql k c)) [
  | inl q ↦
      let p : one_of k seen ≡ false = ap (λ x. one_of x seen) ((eql_iff k c).0 q) ∙ e in
      ground (arith, unseen-see m c seen)
  | inr q ↦
      ground
        (arith, unseen-lt m c seen ci (sym (ap (λ b. if b then some i else lookup c m) q) ∙ h) e)
]

pub has_sites-nil : (locs : List Location) → has_sites locs ≡ false → locs ≡ []
has_sites-nil [] e = refl
has_sites-nil (l ∷ locs) e = ground arith

has_sites-ne : (locs : List Location) → has_sites locs ≡ true → locs ≢ []
has_sites-ne [] e n = ground arith
has_sites-ne (l ∷ locs) e n = cc

module _ (classes : Assoc ClassInfo) (members : ClassInfo → List Location) where
  -- A class without the member, whose bases have all been seen.
  abbrev IsDone : Seen → Bytes → Type 0
  IsDone seen d =
      (own classes members (lookup d classes) ≡ [])
      × ((b : Bytes)
          → one_of b (bases_of classes members (lookup d classes)) ≡ true
          → one_of b seen ≡ true)

  -- Each class seen is done, or is one of those that are being searched.
  abbrev IsClosed : Seen → Seen → Type 0
  IsClosed grey seen = (d : Bytes) → one_of d seen ≡ true → (one_of d grey ≡ true) ⊎ IsDone seen d

  record IsExplored (grey seen : Seen) (bases : List Bytes) (r : List Location × Seen)
      : Type 0 where
    kept : IsSub seen r.1
    entered : (b : Bytes) → one_of b bases ≡ true → one_of b r.1 ≡ true
    closed : IsClosed grey r.1

  abbrev Explores : ℕ → Search → Type 0
  Explores n rec =
      (grey seen : Seen) (b : Bytes)
      → unseen classes seen < n
      → IsClosed grey seen
      → has_sites (rec b seen).0 ≡ false
      → IsExplored grey seen (b ∷ []) (rec b seen)

  search_bases-IsExplored :
      (n : ℕ) (rec : Search) (grey seen : Seen) (bases : List Bytes)
      → Explores n rec
      → unseen classes seen < n
      → IsClosed grey seen
      → has_sites (search_bases classes members rec bases seen).0 ≡ false
      → IsExplored grey seen bases (search_bases classes members rec bases seen)
  unfolding search_bases one_of
  search_bases-IsExplored n rec grey seen [] h lt closed =
      λ e. record { kept = λ x m. m; entered = λ b m. ground arith; closed = closed }
  search_bases-IsExplored n rec grey seen (b ∷ bases) h lt closed =
      if_cases
        (λ (r : List Location × Seen). has_sites r.0 ≡ false → IsExplored grey seen (b ∷ bases) r)
        (has_sites (rec b seen).0) _ _ (λ q e. ground arith)
        λ q e.
          let x = h grey seen b lt closed q in
          let y =
            search_bases-IsExplored n rec grey (rec b seen).1 bases h
              (omega (arith, unseen_mono classes seen (rec b seen).1 x.kept)) x.closed e in
          record {
            kept = λ a m. y.kept a (x.kept a m);
            entered = λ a m. elim (Bool-cases (eql a b)) [
              | inl p ↦ y.kept a (x.entered a (ground arith))
              | inr p ↦ y.entered a (ground arith)
            ];
            closed = y.closed;
          }

  -- The class is done once its bases have been searched.
  IsClosed-done :
      (grey seen : Seen) (c : Bytes) → IsClosed (c ∷ grey) seen → IsDone seen c → IsClosed grey seen
  unfolding one_of
  IsClosed-done grey seen c closed done d m = elim (closed d m) [
    | inl g ↦ elim (Bool-cases (eql d c)) [
      | inl p ↦ inr (subst (IsDone seen) (sym ((eql_iff d c).0 p)) done)
      | inr p ↦ inl (ground arith)
    ]
    | inr x ↦ inr x
  ]

  IsClosed-enter :
      (grey seen : Seen) (c : Bytes) → IsClosed grey seen → IsClosed (c ∷ grey) (c ∷ seen)
  unfolding one_of
  IsClosed-enter grey seen c closed d m = elim (Bool-cases (eql d c)) [
    | inl p ↦ inl (ground arith)
    | inr p ↦ elim (closed d (ground arith)) [
      | inl g ↦ inl (ground arith)
      | inr x ↦ inr (x.0, λ b k. let s = x.1 b k in ground arith)
    ]
  ]

  IsDone-of :
      (seen : Seen) (c : Bytes) (o : Option ClassInfo)
      → lookup c classes ≡ o
      → own classes members o ≡ []
      → ((b : Bytes) → one_of b (bases_of classes members o) ≡ true → one_of b seen ≡ true)
      → IsDone seen c
  IsDone-of seen c o k e h = rw k (e, h)

  search_class-IsExplored :
      (n : ℕ) (rec : Search) (grey seen : Seen) (c : Bytes) (o : Option ClassInfo)
      → lookup c classes ≡ o
      → Explores n rec
      → unseen classes seen < suc n
      → one_of c seen ≡ false
      → IsClosed grey seen
      → has_sites (search_class classes members rec o (c ∷ seen)).0 ≡ false
      → IsExplored grey seen (c ∷ []) (search_class classes members rec o (c ∷ seen))
  unfolding search_class one_of
  search_class-IsExplored n rec grey seen c none k h lt e closed = λ _. record {
    kept = λ x m. ground arith;
    entered = λ b m. ground arith;
    closed =
        IsClosed-done grey (c ∷ seen) c (IsClosed-enter grey seen c closed)
          (IsDone-of (c ∷ seen) c none k refl λ b m. ground arith);
  }
  search_class-IsExplored n rec grey seen c (some ci) k h lt e closed =
      if_cases
        (λ (r : List Location × Seen). has_sites r.0 ≡ false → IsExplored grey seen (c ∷ []) r)
        (has_sites (members ci)) _ _ (λ q e. ground arith)
        λ q e'.
          let x =
            search_bases-IsExplored n rec (c ∷ grey) (c ∷ seen) ci.inherit h
              (omega (arith, unseen-lt classes c seen ci k e)) (IsClosed-enter grey seen c closed)
              e' in
          record {
            kept = λ b m. x.kept b (ground arith);
            entered = λ b m.
                subst
                  (λ a. one_of a (search_bases classes members rec ci.inherit (c ∷ seen)).1 ≡ true)
                  (sym ((eql_iff b c).0 (ground arith))) (x.kept c (ground (arith, eql_refl c)));
            closed =
                IsClosed-done grey _ c x.closed
                  (IsDone-of _ c (some ci) k (has_sites-nil (members ci) q) x.entered);
          }

  search-IsExplored : (fuel : ℕ) → Explores fuel (search classes members fuel)
  unfolding search one_of
  search-IsExplored zero grey seen c lt closed = ground arith
  search-IsExplored (suc fuel) grey seen c lt closed =
      if_cases
        (λ (r : List Location × Seen). has_sites r.0 ≡ false → IsExplored grey seen (c ∷ []) r)
        (one_of c seen) _ _
        (λ q _. record {
          kept = λ x m. m;
          entered =
              λ b m. subst (λ a. one_of a seen ≡ true) (sym ((eql_iff b c).0 (ground arith))) q;
          closed = closed;
        })
        λ q.
          search_class-IsExplored fuel (search classes members fuel) grey seen c (lookup c classes)
            refl (search-IsExplored fuel) lt q closed

  -- In a set of classes that are all done, so are the classes that one of them inherits from.
  IsDone-Inherits :
      (seen : Seen) (c d : Bytes)
      → IsClosed [] seen
      → one_of c seen ≡ true
      → Inherits classes members c d
      → IsDone seen d
  unfolding one_of
  IsDone-Inherits seen c d closed m (itself _) = elim (closed c m) [
    | inl g ↦ absurd (ground arith)
    | inr x ↦ x
  ]
  IsDone-Inherits seen c d closed m (base _ b _ k i) = elim (closed c m) [
    | inl g ↦ absurd (ground arith)
    | inr x ↦ IsDone-Inherits seen b d closed (x.1 b k) i
  ]

  -- The search either finds the sites that the member has in some class that `c` is or inherits from,
  -- or finds nothing, and then none of those classes has the member.
  pub find_member-Inherits :
      (c : Bytes)
      → ((d : Bytes) × Inherits classes members c d
          × (find_member classes members c ≢ [])
          × (find_member classes members c ≡ own classes members (lookup d classes)))
        ⊎ ((find_member classes members c ≡ [])
            × ((d : Bytes)
                → Inherits classes members c d
                → own classes members (lookup d classes) ≡ []))
  find_member-Inherits c = elim (Bool-cases (has_sites (find_member classes members c))) [
    | inl q ↦
        let (d, i, e) = search-IsFrom classes members (suc (length classes)) c [] q in
        inl (d, i, (λ n. has_sites-ne _ q n), e)
    | inr q ↦
        let x =
          search-IsExplored (suc (length classes)) [] [] c (omega (arith, unseen-le classes []))
            (λ d m. ground arith) q in
        inr (
          has_sites-nil _ q,
          λ d i. (IsDone-Inherits _ c d x.closed (x.entered c (one_of_here c [])) i).0,
        )
  ]
