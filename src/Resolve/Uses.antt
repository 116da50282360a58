-- ===== src/Resolve/Uses.antt =====
-- The references to a name: exactly the references of the files that stand for it, of the live text in
-- the file itself; and those of a name that is local to a page, in that page alone.
use mathlib.Core.List.{Memᴰ}
use mathlib.Core.List.Memᴰ
use tcl_lsp_nvim.Base.{
  true, false, List, [], ◌∷◌, ◌≡◌, ◌≢◌, ◌⊎◌, inl, inr, refl, sym, ap, ◌∙◌, subst, arith, ◌==◌,
  if◌then◌else◌, Bytes, length, eql, eql_iff, All, All-append, All-mono, All-Mem, if_cases,
}
use tcl_lsp_nvim.Files.{ContextRef}
use tcl_lsp_nvim.Defs.{DefKind}
use tcl_lsp_nvim.Index.{Location}
use tcl_lsp_nvim.Resolve.{Workspace, is_page_local, lookup_scoped, ref_fq}
use tcl_lsp_nvim.Resolve.Targets.{target_kind, use_site, scan_uses, scan_files, target_references}

length-zero : (s : Bytes) → (length s == 0) ≡ true → s ≡ []
length-zero [] e = refl
length-zero (c ∷ s) e = ground arith

module _ (ws : Workspace) (file target : Bytes) (rs : List ContextRef) where
  -- A reference of the workspace that stands for the target, in the file `f`.
  abbrev pub IsUse : Bytes → ContextRef → Type 0
  IsUse f r =
      (ref_fq ws r f ≡ target)
      × (((f ≡ file) × Memᴰ r rs)
          ⊎ ((f ≢ file)
              × (is_page_local target file ≡ false)
              × Memᴰ f ws.files
              × Memᴰ r (ws.refs_of f)))

  abbrev pub kind : DefKind
  kind = target_kind (lookup_scoped ws target file)

  abbrev pub HasUse : Location → Type 0
  HasUse l = (f : Bytes) × (r : ContextRef) × IsUse f r × (l ≡ use_site ws target kind f r)

  scan_uses-All :
      (f : Bytes) (P : ContextRef → Type 0) (qs : List ContextRef)
      → All P qs
      → All
          (λ l.
            (r : ContextRef) × P r × (ref_fq ws r f ≡ target) × (l ≡ use_site ws target kind f r))
          (scan_uses ws target kind f qs)
  unfolding scan_uses
  scan_uses-All f P [] h = tt
  scan_uses-All f P (r ∷ qs) (p, h) =
      let rest = scan_uses-All f P qs h in
      if_cases
        (All (λ l.
          (r : ContextRef) × P r × (ref_fq ws r f ≡ target) × (l ≡ use_site ws target kind f r)))
        (eql (ref_fq ws r f) target) _ _ (λ e. ((r, p, (eql_iff _ target).0 e, refl), rest))
        λ _. rest

  scan_uses-Mem :
      (f : Bytes) (r : ContextRef) (qs : List ContextRef)
      → ref_fq ws r f ≡ target
      → Memᴰ r qs
      → Memᴰ (use_site ws target kind f r) (scan_uses ws target kind f qs)
  unfolding scan_uses
  scan_uses-Mem f r [] e m = elim m [ ]
  scan_uses-Mem f r (q ∷ qs) e (Memᴰ.head p) =
      let t : eql (ref_fq ws q f) target ≡ true =
        (eql_iff _ target).1 (ap (λ x. ref_fq ws x f) (sym p) ∙ e) in
      rw t (Memᴰ.head (ap (use_site ws target kind f) p))
  scan_uses-Mem f r (q ∷ qs) e (Memᴰ.tail m) =
      let rest = scan_uses-Mem f r qs e m in
      if_cases (Memᴰ (use_site ws target kind f r)) (eql (ref_fq ws q f) target) _ _
        (λ _. Memᴰ.tail rest) λ _. rest

  -- The other files, of those that the workspace has.
  scan_files-All :
      (fs : List Bytes)
      → is_page_local target file ≡ false
      → All (λ f. Memᴰ f ws.files) fs
      → All HasUse (scan_files ws target kind file fs)
  unfolding scan_files
  scan_files-All [] p h = tt
  scan_files-All (f ∷ fs) p (m, h) =
      let rest = scan_files-All fs p h in
      if_cases (All HasUse) (eql f file) _ _ (λ _. rest)
        λ e.
          All-append HasUse (scan_uses ws target kind f (ws.refs_of f)) _
            (All-mono _ HasUse _
              (λ l (r, q, t, s).
                (f, r, (t, inr ((λ n. ground (arith, eql_iff f file)), p, m, q)), s))
              (scan_uses-All f (λ r. Memᴰ r (ws.refs_of f)) (ws.refs_of f)
                (All-Mem (ws.refs_of f))))
            rest

  scan_files-Mem :
      (f : Bytes) (r : ContextRef) (fs : List Bytes)
      → f ≢ file
      → ref_fq ws r f ≡ target
      → Memᴰ r (ws.refs_of f)
      → Memᴰ f fs
      → Memᴰ (use_site ws target kind f r) (scan_files ws target kind file fs)
  unfolding scan_files
  scan_files-Mem f r [] n e m i = elim i [ ]
  scan_files-Mem f r (g ∷ fs) n e m (Memᴰ.head p) =
      subst (λ h. Memᴰ (use_site ws target kind f r) (scan_files ws target kind file (h ∷ fs))) p
        (if_cases (Memᴰ (use_site ws target kind f r)) (eql f file) _ _
          (λ q. absurd (n ((eql_iff f file).0 q)))
          λ _. Memᴰ.append_left _ (scan_uses-Mem f r (ws.refs_of f) e m))
  scan_files-Mem f r (g ∷ fs) n e m (Memᴰ.tail i) =
      let rest = scan_files-Mem f r fs n e m i in
      if_cases (Memᴰ (use_site ws target kind f r)) (eql g file) _ _ (λ _. rest)
        λ _. Memᴰ.append_right (scan_uses ws target kind g (ws.refs_of g)) rest

  others : List Location
  others = scan_files ws target kind file ws.files

  target_references-All : All HasUse (target_references ws file rs target)
  unfolding target_references others
  target_references-All =
      if_cases (All HasUse) (length target == 0) _ _ (λ _. tt)
        λ _.
          All-append HasUse (scan_uses ws target kind file rs) _
            (All-mono _ HasUse _ (λ l (r, q, t, s). (file, r, (t, inl (refl, q)), s))
              (scan_uses-All file (λ r. Memᴰ r rs) rs (All-Mem rs)))
            (if_cases (All HasUse) (is_page_local target file) [] others (λ _. tt)
              λ e. scan_files-All ws.files e (All-Mem ws.files))

  target_references-Mem :
      (f : Bytes) (r : ContextRef)
      → target ≢ []
      → IsUse f r
      → Memᴰ (use_site ws target kind f r) (target_references ws file rs target)
  unfolding target_references others
  target_references-Mem f r n (t, u) =
      if_cases (Memᴰ (use_site ws target kind f r)) (length target == 0) _ _
        (λ e. absurd (n (length-zero target e)))
        λ _. elim u [
          | inl (p, m) ↦ Memᴰ.append_left _ (
              subst (λ g. Memᴰ (use_site ws target kind f r) (scan_uses ws target kind g rs)) p
                (scan_uses-Mem f r rs t m))
          | inr (p, e, i, m) ↦ Memᴰ.append_right (scan_uses ws target kind file rs) (
              subst (λ b. Memᴰ (use_site ws target kind f r) (if b then [] else others)) (sym e)
                (scan_files-Mem f r ws.files p t m i))
        ]

  -- Each location is the place of a use of the target, with the target's name and kind: a reference of
  -- the live text in the file itself, or one that the workspace has for another of its files, and
  -- that only where the target is not local to the page. And where the target has a name, the place of
  -- every such use is among the locations.
  pub target_references-HasUse :
      All HasUse (target_references ws file rs target)
      × ((f : Bytes) (r : ContextRef)
          → target ≢ []
          → IsUse f r
          → Memᴰ (use_site ws target kind f r) (target_references ws file rs target))
  target_references-HasUse = (target_references-All, target_references-Mem)
