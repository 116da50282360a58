-- ===== src/Lsp/Hierarchy/Extents.antt =====
-- server/internal/lsp/callhierarchy.go: the extents that `enclosingDef` chooses from.
use mathlib.Core.List.{Memᴰ}
use mathlib.Core.List.Memᴰ
use tcl_lsp_nvim.Base.{
  ℕ, ◌≤◌, true, false, List, [], ◌∷◌, ◌++◌, ◌≡◌, refl, sym, subst, arith, Option, none, some, ltb,
  All, All-append, All-mono, if_cases, append_assoc, append-nil,
}
use tcl_lsp_nvim.Defs.{Definition}
use tcl_lsp_nvim.Lsp.Hierarchy.{encloses, later, enclosing_from, enclosing_def}

module _ (offset : ℕ) where
  -- No callable has the offset in its extent, or the one found has, and none that has starts later.
  abbrev pub IsInnermost : List Definition → Option Definition → Type 0
  IsInnermost ds none = All (λ d. encloses offset d ≡ false) ds
  IsInnermost ds (some b) =
      Memᴰ b ds
      × (encloses offset b ≡ true)
      × All (λ d. encloses offset d ≡ true → d.full_start ≤ b.full_start) ds

  later-IsInnermost :
      (seen : List Definition) (d : Definition) (best : Option Definition)
      → encloses offset d ≡ true
      → IsInnermost seen best
      → IsInnermost (seen ++ d ∷ []) (later d best)
  later-IsInnermost seen d none e h = (
    Memᴰ.append_right seen (Memᴰ.head refl),
    e,
    All-append _ seen (d ∷ []) (All-mono _ _ seen (λ x no yes. absurd (ground arith)) h)
        ((λ _. omega arith), tt),
  )
  later-IsInnermost seen d (some b) e (m, c, le) =
      if_cases (IsInnermost (seen ++ d ∷ [])) (ltb b.full_start d.full_start) _ _
        (λ q. (
          Memᴰ.append_right seen (Memᴰ.head refl),
          e,
          All-append _ seen (d ∷ [])
              (All-mono _ (λ x. encloses offset x ≡ true → x.full_start ≤ d.full_start) seen
                (λ x l yes. let k = l yes in ground arith) le)
              ((λ _. omega arith), tt),
        ))
        λ q.
          (Memᴰ.append_left (d ∷ []) m, c, All-append _ seen (d ∷ []) le ((λ _. ground arith), tt))

  skip-IsInnermost :
      (seen : List Definition) (d : Definition) (best : Option Definition)
      → encloses offset d ≡ false
      → IsInnermost seen best
      → IsInnermost (seen ++ d ∷ []) best
  skip-IsInnermost seen d none e h = All-append _ seen (d ∷ []) h (e, tt)
  skip-IsInnermost seen d (some b) e (m, c, le) = (
    Memᴰ.append_left (d ∷ []) m,
    c,
    All-append _ seen (d ∷ []) le ((λ yes. absurd (ground arith)), tt),
  )

  enclosing_from-append :
      (ds seen : List Definition) (best : Option Definition)
      → IsInnermost seen best
      → IsInnermost (seen ++ ds) (enclosing_from offset ds best)
  unfolding enclosing_from
  enclosing_from-append [] seen best h = subst (λ l. IsInnermost l best) (sym (append-nil seen)) h
  enclosing_from-append (d ∷ ds) seen best h =
      subst (λ l. IsInnermost l (enclosing_from offset (d ∷ ds) best))
        (append_assoc seen (d ∷ []) ds)
        (enclosing_from-append ds (seen ++ d ∷ []) _ (
          if_cases (IsInnermost (seen ++ d ∷ [])) (encloses offset d) _ _
            (λ e. later-IsInnermost seen d best e h) λ e. skip-IsInnermost seen d best e h))

-- The callable that is found round an offset is one of the definitions, its extent has the offset, and
-- no callable whose extent has it starts later; none is found only where no callable's extent has it.
pub enclosing_def-IsInnermost :
    (ds : List Definition) (offset : ℕ) → IsInnermost offset ds (enclosing_def ds offset)
unfolding enclosing_from
enclosing_def-IsInnermost ds offset = enclosing_from-append offset ds [] none tt
