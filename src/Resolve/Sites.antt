-- ===== src/Resolve/Sites.antt =====
-- Where the definitions of a reference come from, and that a page's own names stay in the page.
use mathlib.Core.List.{Memᴰ}
use tcl_lsp_nvim.Base.{
  true, ◌&&◌, List, [], ◌∷◌, ◌≡◌, ◌⊎◌, inl, inr, refl, sym, subst, arith, Bytes, eql, eql_iff, All,
  All-mono, All-Mem, if_cases,
}
use tcl_lsp_nvim.Assoc.{lookup}
use tcl_lsp_nvim.Files.{ContextRef}
use tcl_lsp_nvim.Index.{Location}
use tcl_lsp_nvim.Resolve.{
  Workspace, is_command, candidates, has_sites, in_file, is_page_local, lookup_scoped,
}
use tcl_lsp_nvim.Resolve.Members.{methods_called, method_in_class}
use tcl_lsp_nvim.Resolve.Targets.{in_method, own_methods, first_sites, ref_sites}
use tcl_lsp_nvim.Resolve.Inherited.{own, Inherits}
use tcl_lsp_nvim.Resolve.Explored.{find_member-Inherits}
use mathlib.Core.Option.{some}

module _ (ws : Workspace) (file : Bytes) where
  -- A definition of the name, and of the file itself where the name is local to the page.
  abbrev pub IsVisible : Bytes → Location → Type 0
  IsVisible name l = Memᴰ l (ws.lookup_fq name) × (is_page_local name file ≡ true → l.file ≡ file)

  in_file-All :
      (P : Location → Type 0) (locs : List Location)
      → All P locs
      → All (λ l. P l × (l.file ≡ file)) (in_file file locs)
  unfolding in_file
  in_file-All P [] h = tt
  in_file-All P (l ∷ locs) (p, h) =
      let rest = in_file-All P locs h in
      if_cases (All (λ l. P l × (l.file ≡ file))) (eql l.file file) _ _
        (λ e. ((p, (eql_iff l.file file).0 e), rest)) λ _. rest

  lookup_scoped-IsVisible : (name : Bytes) → All (IsVisible name) (lookup_scoped ws name file)
  unfolding lookup_scoped
  lookup_scoped-IsVisible name =
      if_cases (All (IsVisible name)) (is_page_local name file) _ _
        (λ _.
          All-mono _ (IsVisible name) _ (λ l (m, e). (m, λ _. e))
            (in_file-All (λ l. Memᴰ l (ws.lookup_fq name)) (ws.lookup_fq name)
              (All-Mem (ws.lookup_fq name))))
        λ no.
          All-mono _ (IsVisible name) _ (λ l m. (m, λ yes. ground arith))
            (All-Mem (ws.lookup_fq name))

  first_sites-IsVisible :
      (names : List Bytes)
      → All (λ l. (name : Bytes) × Memᴰ name names × IsVisible name l) (first_sites ws file names)
  unfolding first_sites
  first_sites-IsVisible [] = tt
  first_sites-IsVisible (n ∷ names) =
      if_cases (All (λ l. (name : Bytes) × Memᴰ name (n ∷ names) × IsVisible name l))
        (has_sites (lookup_scoped ws n file)) _ _
        (λ _.
          All-mono (IsVisible n) _ _ (λ l v. (n, Memᴰ.head refl, v)) (lookup_scoped-IsVisible n))
        λ _. All-mono _ _ _ (λ l (name, m, v). (name, Memᴰ.tail m, v)) (first_sites-IsVisible names)

  -- A method site of a class that `c` is or inherits from.
  abbrev pub FromClass : Bytes → Bytes → Location → Type 0
  FromClass c name l =
      (d : Bytes) × Inherits ws.classes (methods_called name) c d
      × Memᴰ l (own ws.classes (methods_called name) (lookup d ws.classes))

  -- A method that the class of the use has or inherits.
  abbrev pub IsMethodSite : ContextRef → Location → Type 0
  IsMethodSite r l =
      (is_command r.ref.kind ≡ true) × (in_method r ≡ true) × FromClass r.context.class r.ref.name l

  abbrev pub IsSiteOf : ContextRef → Location → Type 0
  IsSiteOf r l =
      IsMethodSite r l ⊎ ((name : Bytes) × Memᴰ name (candidates ws r) × IsVisible name l)

  method_in_class-All : (c name : Bytes) → All (FromClass c name) (method_in_class ws c name)
  unfolding method_in_class
  method_in_class-All c name = elim (find_member-Inherits ws.classes (methods_called name) c) [
    | inl (d, i, _, e) ↦
        All-mono (λ l. Memᴰ l (method_in_class ws c name)) (FromClass c name) _
          (λ l m. (d, i, subst (Memᴰ l) e m)) (All-Mem (method_in_class ws c name))
    | inr (e, _) ↦ subst (All (FromClass c name)) (sym e) tt
  ]

  own_methods-IsMethodSite : (r : ContextRef) → All (IsMethodSite r) (own_methods ws r)
  own_methods-IsMethodSite r =
      if_cases (All (IsMethodSite r)) (is_command r.ref.kind && in_method r) _ _
        (λ e.
          All-mono _ (IsMethodSite r) _ (λ l f. ((ground arith), (ground arith), f))
            (method_in_class-All r.context.class r.ref.name))
        λ _. tt

  -- Each definition of a reference is a method of the class that the reference stands in, or of one that
  -- it inherits from, and that for a command in a method alone; or it is a definition of one of the
  -- candidates of the reference, and of the file itself where that name is local to the page.
  pub ref_sites-IsSiteOf : (r : ContextRef) → All (IsSiteOf r) (ref_sites ws file (some r))
  unfolding ref_sites
  ref_sites-IsSiteOf r =
      if_cases (All (IsSiteOf r)) (has_sites (own_methods ws r)) _ _
        (λ _. All-mono (IsMethodSite r) (IsSiteOf r) _ (λ l m. inl m) (own_methods-IsMethodSite r))
        λ _. All-mono _ (IsSiteOf r) _ (λ l v. inr v) (first_sites-IsVisible (candidates ws r))
