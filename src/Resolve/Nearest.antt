-- ===== src/Resolve/Nearest.antt =====
-- server/internal/resolve/resolve.go: the references that `refAt` chooses from.
use mathlib.Core.List.{Memᴰ}
use mathlib.Core.List.Memᴰ
use tcl_lsp_nvim.Base.{
  ℕ, ◌≤◌, true, false, List, [], ◌∷◌, ◌++◌, ◌≡◌, refl, sym, subst, arith, Option, none, some, ltb,
  All, All-append, All-mono, if_cases, append_assoc, append-nil,
}
use tcl_lsp_nvim.Files.{ContextRef}
use tcl_lsp_nvim.Resolve.Locals.{covers, ref_size, better, innermost}

module _ (offset : ℕ) where
  -- None of the references is round the offset, or the one found is, and none that is, is smaller.
  abbrev pub IsNearest : List ContextRef → Option ContextRef → Type 0
  IsNearest rs none = All (λ r. covers offset r ≡ false) rs
  IsNearest rs (some b) =
      Memᴰ b rs
      × (covers offset b ≡ true)
      × All (λ r. covers offset r ≡ true → ref_size b ≤ ref_size r) rs

  better-IsNearest :
      (seen : List ContextRef) (r : ContextRef) (best : Option ContextRef)
      → covers offset r ≡ true
      → IsNearest seen best
      → IsNearest (seen ++ r ∷ []) (better r best)
  better-IsNearest seen r none e h = (
    Memᴰ.append_right seen (Memᴰ.head refl),
    e,
    All-append _ seen (r ∷ []) (All-mono _ _ seen (λ x no yes. ground arith) h)
        ((λ _. omega arith), tt),
  )
  better-IsNearest seen r (some b) e (m, c, le) =
      if_cases (IsNearest (seen ++ r ∷ [])) (ltb (ref_size r) (ref_size b)) _ _
        (λ q. (
          Memᴰ.append_right seen (Memᴰ.head refl),
          e,
          All-append _ seen (r ∷ [])
              (All-mono _ (λ x. covers offset x ≡ true → ref_size r ≤ ref_size x) seen
                (λ x l yes. let k = l yes in ground arith) le)
              ((λ _. omega arith), tt),
        ))
        λ q.
          (Memᴰ.append_left (r ∷ []) m, c, All-append _ seen (r ∷ []) le ((λ _. ground arith), tt))

  skip-IsNearest :
      (seen : List ContextRef) (r : ContextRef) (best : Option ContextRef)
      → covers offset r ≡ false
      → IsNearest seen best
      → IsNearest (seen ++ r ∷ []) best
  skip-IsNearest seen r none e h = All-append _ seen (r ∷ []) h (e, tt)
  skip-IsNearest seen r (some b) e (m, c, le) =
      (Memᴰ.append_left (r ∷ []) m, c, All-append _ seen (r ∷ []) le ((λ yes. ground arith), tt))

  innermost-append :
      (rs seen : List ContextRef) (best : Option ContextRef)
      → IsNearest seen best
      → IsNearest (seen ++ rs) (innermost offset rs best)
  unfolding innermost
  innermost-append [] seen best h = subst (λ l. IsNearest l best) (sym (append-nil seen)) h
  innermost-append (r ∷ rs) seen best h =
      subst (λ l. IsNearest l (innermost offset (r ∷ rs) best)) (append_assoc seen (r ∷ []) rs)
        (innermost-append rs (seen ++ r ∷ []) _ (
          if_cases (IsNearest (seen ++ r ∷ [])) (covers offset r) _ _
            (λ e. better-IsNearest seen r best e h) λ e. skip-IsNearest seen r best e h))

-- The reference that is found at an offset is one of the references whose range has the offset in it,
-- and none of those has a smaller range; none is found only where there is no such reference.
pub innermost-IsNearest :
    (offset : ℕ) (rs : List ContextRef) → IsNearest offset rs (innermost offset rs none)
innermost-IsNearest offset rs = innermost-append offset rs [] none tt
