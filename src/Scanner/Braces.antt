-- ===== src/Scanner/Braces.antt =====
-- What the depth-counting loop finds: the end of a balanced text, or of the input.
use tcl_lsp_nvim.Base.{
  ℕ, suc, ◌+◌, ◌-◌, [], ◌∷◌, ◌++◌, ◌≡◌, ◌≢◌, refl, arith, ◌==◌, if◌then◌else◌, Bytes, length, drop,
  append_assoc, length-append,
}
use tcl_lsp_nvim.Scanner.{balanced_span}

-- Text in which every `o` has its `c`. A backslash hides the byte behind it.
pub data IsBalanced (o c : ℕ) : Bytes → Type 0 where
  nothing : IsBalanced o c []
  plain :
      {x : ℕ} {s : Bytes} → x ≢ b'\\' → x ≢ o → x ≢ c → IsBalanced o c s → IsBalanced o c (x ∷ s)
  escaped : {x : ℕ} {s : Bytes} → IsBalanced o c s → IsBalanced o c (b'\\' ∷ x ∷ s)
  nested : {s t : Bytes} → IsBalanced o c s → IsBalanced o c t → IsBalanced o c (o ∷ (s ++ (c ∷ t)))

-- The brackets that the source counts: neither is a backslash, and they differ.
pub record AreBrackets (o c : ℕ) : Type 0 where
  pub open_plain : o ≢ b'\\'
  pub close_plain : c ≢ b'\\'
  pub differ : o ≢ c

-- The loop's turn at a byte that is not the last.
span_cons :
    (o c depth x : ℕ) (s : Bytes)
    → s ≢ []
    → balanced_span o c depth (x ∷ s) ≡ (
        if x == b'\\'
        then suc (suc (balanced_span o c depth (drop 1 s)))
        else if x == o
        then suc (balanced_span o c (suc depth) s)
        else if x == c
        then (if depth == 1 then 1 else suc (balanced_span o c (depth - 1) s))
        else suc (balanced_span o c depth s))
unfolding balanced_span
span_cons o c depth x [] ne = absurd (ne refl)
span_cons o c depth x (y ∷ s) ne = refl

append-ne-nil : (s : Bytes) (x : ℕ) (t : Bytes) → s ++ (x ∷ t) ≢ []
append-ne-nil [] x t = λ e. cc
append-ne-nil (y ∷ s) x t = λ e. cc

module _ (o c : ℕ) (br : AreBrackets o c) where
  -- Balanced text is passed over at any positive depth.
  span-balanced :
      {s : Bytes} (d x : ℕ) (t : Bytes)
      → IsBalanced o c s
      → balanced_span o c (suc d) (s ++ (x ∷ t)) ≡ length s + balanced_span o c (suc d) (x ∷ t)
  span-balanced d x t nothing = omega arith
  span-balanced d x t (plain {x = y} {s} p q r b) =
      ground
        (arith, span_cons o c (suc d) y (s ++ (x ∷ t)) (append-ne-nil s x t), span-balanced d x t b)
  span-balanced d x t (escaped {x = y} {s} b) =
      ground
        (arith, span_cons o c (suc d) b'\\' (y ∷ (s ++ (x ∷ t))) (λ e. cc), span-balanced d x t b)
  span-balanced d x t (nested {s} {t = u} b b') = ground (
    arith,
    br.open_plain,
    br.close_plain,
    br.differ,
    append_assoc s (c ∷ u) (x ∷ t),
    length-append s (c ∷ u),
    span_cons o c (suc d) o (s ++ (c ∷ (u ++ (x ∷ t)))) (append-ne-nil s c (u ++ (x ∷ t))),
    span-balanced (suc d) c (u ++ (x ∷ t)) b,
    span_cons o c (suc (suc d)) c (u ++ (x ∷ t)) (append-ne-nil u x t),
    span-balanced d x t b',
  )

  span_close : (rest : Bytes) → balanced_span o c 1 (c ∷ rest) ≡ 1
  unfolding balanced_span
  span_close [] = refl
  span_close (y ∷ rest) = ground (arith, br.close_plain, br.differ)

  -- From an opening byte the loop goes just past the byte that closes it.
  pub balanced_span-balanced :
      (s rest : Bytes)
      → IsBalanced o c s
      → balanced_span o c 0 (o ∷ (s ++ (c ∷ rest))) ≡ length s + 2
  balanced_span-balanced s rest b = ground (
    arith,
    br.open_plain,
    span_cons o c 0 o (s ++ (c ∷ rest)) (append-ne-nil s c rest),
    span-balanced 0 c rest b,
    span_close rest,
  )
