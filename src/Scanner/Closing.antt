-- ===== src/Scanner/Closing.antt =====
-- The converse of Scanner/Braces: where the depth-counting loop stops before the end of the
-- input, what it passed over is balanced.
use tcl_lsp_nvim.Base.{
  ℕ, zero, suc, ◌-◌, true, false, [], ◌∷◌, ◌++◌, ◌≡◌, ◌≢◌, refl, sym, ap, ◌∙◌, arith, ◌==◌, ◌⊎◌,
  inl, inr, if◌then◌else◌, Bytes, length, take, append_assoc, if_cases,
}
use tcl_lsp_nvim.Scanner.{balanced_span}
use tcl_lsp_nvim.Scanner.Braces.{IsBalanced, nothing, plain, escaped, nested}

module _ (o c : ℕ) where
  -- Text that closes `d` brackets which stand open in front of it, the last at its end.
  data Closes : ℕ → Bytes → Type 0 where
    done : Closes 0 []
    close :
        {d : ℕ} {s t u : Bytes}
        → IsBalanced o c s
        → u ≡ s ++ (c ∷ t)
        → Closes d t
        → Closes (suc d) u

  Closes-plain :
      {d : ℕ} {t : Bytes} (x : ℕ)
      → x ≢ b'\\'
      → x ≢ o
      → x ≢ c
      → Closes (suc d) t
      → Closes (suc d) (x ∷ t)
  Closes-plain x p q r (close b e k) = close (plain p q r b) (ap (◌∷◌ x) e) k

  Closes-escaped : {d : ℕ} {t : Bytes} (x : ℕ) → Closes (suc d) t → Closes (suc d) (b'\\' ∷ x ∷ t)
  Closes-escaped x (close b e k) = close (escaped b) (ap (λ t. b'\\' ∷ x ∷ t) e) k

  Closes-open : {d : ℕ} {t : Bytes} → Closes (suc (suc d)) t → Closes (suc d) (o ∷ t)
  Closes-open (close {s} b e (close {s = s'} {t = t'} b' e' k)) =
      close (nested b b')
        (ap (◌∷◌ o) (e ∙ ap (λ t. s ++ (c ∷ t)) e' ∙ sym (append_assoc s (c ∷ s') (c ∷ t')))) k

  -- What the loop leaves behind at depth `d` when it moves on by `n`.
  abbrev Ends : ℕ → Bytes → ℕ → Type 0
  Ends d s n = (n ≡ length s) ⊎ Closes d (take n s)

  Ends-later :
      {d d' : ℕ} (x : ℕ) (s : Bytes) {n : ℕ}
      → (Closes d' (take n s) → Closes d (x ∷ take n s))
      → Ends d' s n
      → Ends d (x ∷ s) (suc n)
  Ends-later x s f (inl e) = inl (ap suc e)
  Ends-later x s f (inr k) = inr (f k)

  Ends-close :
      (d : ℕ) (s : Bytes)
      → ((d' : ℕ) → Ends (suc d') s (balanced_span o c (suc d') s))
      → Ends (suc d) (c ∷ s) (if suc d == 1 then 1 else suc (balanced_span o c (suc d - 1) s))
  Ends-close zero s ih = inr (close nothing refl done)
  Ends-close (suc d) s ih =
      let e : suc (suc d) - 1 ≡ suc d = omega arith in
      let test : (suc (suc d) == 1) ≡ false = ground arith in
      rw (test, e) (Ends-later c s (close nothing refl) (ih d))

  span-Ends : (d : ℕ) (s : Bytes) → Ends (suc d) s (balanced_span o c (suc d) s)
  unfolding balanced_span
  span-Ends d [] = inl refl
  span-Ends d (x ∷ []) = inl refl
  span-Ends d (x ∷ y ∷ s) =
      if_cases (Ends (suc d) (x ∷ y ∷ s)) (x == b'\\') _ _ (after_escape (span-Ends d s)) λ p.
        if_cases (Ends (suc d) (x ∷ y ∷ s)) (x == o) _ _ (after_open (span-Ends (suc d) (y ∷ s)))
          λ q.
            if_cases (Ends (suc d) (x ∷ y ∷ s)) (x == c) _ _
              (after_close (λ d'. span-Ends d' (y ∷ s)))
              λ r.
                Ends-later x (y ∷ s) (Closes-plain x (ground arith) (ground arith) (ground arith))
                  (span-Ends d (y ∷ s))
    where
      after_escape :
          Ends (suc d) s (balanced_span o c (suc d) s)
          → (x == b'\\') ≡ true
          → Ends (suc d) (x ∷ y ∷ s) (suc (suc (balanced_span o c (suc d) s)))
      after_escape (inl e) h = inl (ap (λ n. suc (suc n)) e)
      after_escape (inr k) h = inr (let e : x ≡ b'\\' = ground arith in rw e (Closes-escaped y k))

      after_open :
          Ends (suc (suc d)) (y ∷ s) (balanced_span o c (suc (suc d)) (y ∷ s))
          → (x == o) ≡ true
          → Ends (suc d) (x ∷ y ∷ s) (suc (balanced_span o c (suc (suc d)) (y ∷ s)))
      after_open ih h = let e : x ≡ o = ground arith in rw e (Ends-later o (y ∷ s) Closes-open ih)

      after_close :
          ((d' : ℕ) → Ends (suc d') (y ∷ s) (balanced_span o c (suc d') (y ∷ s)))
          → (x == c) ≡ true
          → Ends
              (suc d)
              (x ∷ y ∷ s)
              (if suc d == 1 then 1 else suc (balanced_span o c (suc d - 1) (y ∷ s)))
      after_close ih h = let e : x ≡ c = ground arith in rw e (Ends-close d (y ∷ s) ih)

  span_open : (s : Bytes) → o ≢ b'\\' → balanced_span o c 0 (o ∷ s) ≡ suc (balanced_span o c 1 s)
  unfolding balanced_span
  span_open [] h = refl
  span_open (y ∷ s) h = ground arith

  abbrev IsClosed : Bytes → Type 0
  IsClosed u = (inner : Bytes) × IsBalanced o c inner × (u ≡ inner ++ (c ∷ []))

  Closes-one : {u : Bytes} → Closes 1 u → IsClosed u
  Closes-one (close {s} b e done) = (s, b, e)

  -- What the loop takes from an opening byte on, unless it takes the whole of the input, is that
  -- byte, balanced text and the closing byte.
  pub balanced_span-closes :
      (s : Bytes)
      → o ≢ b'\\'
      → (balanced_span o c 0 (o ∷ s) ≡ length (o ∷ s))
        ⊎ ((inner : Bytes) × IsBalanced o c inner
            × (take (balanced_span o c 0 (o ∷ s)) (o ∷ s) ≡ o ∷ (inner ++ (c ∷ []))))
  balanced_span-closes s h = rw (span_open s h) (split (span-Ends 0 s))
    where
      split :
          Ends 1 s (balanced_span o c 1 s)
          → (suc (balanced_span o c 1 s) ≡ length (o ∷ s))
            ⊎ ((inner : Bytes) × IsBalanced o c inner
                × (o ∷ take (balanced_span o c 1 s) s ≡ o ∷ (inner ++ (c ∷ []))))
      split (inl e) = inl (ap suc e)
      split (inr k) = let (inner, b, e) = Closes-one k in inr (inner, b, ap (◌∷◌ o) e)
