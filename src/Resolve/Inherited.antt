-- ===== src/Resolve/Inherited.antt =====
-- The search through the bases is right, with cycles of classes that inherit from one another too.
use tcl_lsp_nvim.Base.{
  ℕ, zero, suc, true, List, [], ◌∷◌, ◌≡◌, refl, sym, ap, ◌∙◌, arith, Option, none, some, Bytes,
  eql_refl, one_of, if_cases,
}
use tcl_lsp_nvim.Assoc.{Assoc, lookup}
use tcl_lsp_nvim.Index.{Location, ClassInfo}
use tcl_lsp_nvim.Resolve.{has_sites}
use tcl_lsp_nvim.Resolve.Members.{Seen, Search, search_bases, search_class, search}

module _ (classes : Assoc ClassInfo) (members : ClassInfo → List Location) where
  abbrev pub bases_of : Option ClassInfo → List Bytes
  bases_of none = []
  bases_of (some ci) = ci.inherit

  -- The sites of the member in the class itself.
  abbrev pub own : Option ClassInfo → List Location
  own none = []
  own (some ci) = members ci

  -- The class itself, or one that it inherits from, at any distance.
  pub data Inherits : Bytes → Bytes → Type 0 where
    itself : (c : Bytes) → Inherits c c
    base :
        (c b d : Bytes)
        → one_of b (bases_of (lookup c classes)) ≡ true
        → Inherits b d
        → Inherits c d

  -- What is found for one of some classes is what a class has that it inherits from.
  abbrev IsFrom : (Bytes → Type 0) → List Location → Type 0
  IsFrom P locs = has_sites locs ≡ true → (d : Bytes) × P d × (locs ≡ own (lookup d classes))

  search_bases-IsFrom :
      (rec : Search)
      → ((b : Bytes) (seen : Seen) → IsFrom (Inherits b) (rec b seen).0)
      → (bases : List Bytes) (seen : Seen)
      → IsFrom
          (λ d. (b : Bytes) × (one_of b bases ≡ true) × Inherits b d)
          (search_bases classes members rec bases seen).0
  unfolding search_bases one_of
  search_bases-IsFrom rec h [] seen = λ e. ground arith
  search_bases-IsFrom rec h (b ∷ bases) seen =
      if_cases
        (λ (r : List Location × Seen).
          IsFrom (λ d. (b' : Bytes) × (one_of b' (b ∷ bases) ≡ true) × Inherits b' d) r.0)
        (has_sites (rec b seen).0) _ _
        (λ _ e. let (d, i, q) = h b seen e in (d, (b, ground (arith, eql_refl b), i), q))
        λ _ e.
          let (d, (b', m, i), q) = search_bases-IsFrom rec h bases (rec b seen).1 e in
          (d, (b', ground arith, i), q)

  search_class-IsFrom :
      (rec : Search)
      → ((b : Bytes) (seen : Seen) → IsFrom (Inherits b) (rec b seen).0)
      → (o : Option ClassInfo) (c : Bytes) (seen : Seen) → lookup c classes ≡ o
      → IsFrom (Inherits c) (search_class classes members rec o seen).0
  unfolding search_class
  search_class-IsFrom rec h none c seen k = λ e. ground arith
  search_class-IsFrom rec h (some ci) c seen k =
      if_cases (λ (r : List Location × Seen). IsFrom (Inherits c) r.0) (has_sites (members ci)) _ _
        (λ _ _. (c, itself c, ap own (sym k)))
        λ _ e.
          let (d, (b, m, i), q) = search_bases-IsFrom rec h ci.inherit seen e in
          (d, base c b d (ap (λ o. one_of b (bases_of o)) k ∙ m) i, q)

  pub search-IsFrom :
      (fuel : ℕ) (c : Bytes) (seen : Seen)
      → IsFrom (Inherits c) (search classes members fuel c seen).0
  unfolding search
  search-IsFrom zero c seen = λ e. ground arith
  search-IsFrom (suc fuel) c seen =
      if_cases (λ (r : List Location × Seen). IsFrom (Inherits c) r.0) (one_of c seen) _ _
        (λ _ e. ground arith)
        λ _.
          search_class-IsFrom (search classes members fuel) (search-IsFrom fuel) (lookup c classes)
            c (c ∷ seen) refl
