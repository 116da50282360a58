-- ===== src/Scanner/Ranges.antt =====
-- Every token's text is the slice of the source that its range names.
use tcl_lsp_nvim.Base.{
  ℕ, ◌+◌, ◌-◌, ◌≤◌, Bool, List, [], ◌++◌, ◌≡◌, refl, sym, ap, ◌∙◌, arith, Bytes, length, drop,
  slice, length-append, take-append, drop-append, drop-add, All, append-nil,
}
use tcl_lsp_nvim.Scanner.{Token, scan}
use tcl_lsp_nvim.Scanner.Tiles.{Tiles, stop, token, scan-Tiles}

pub record IsRange (src : Bytes) (start end : ℕ) (text : Bytes) : Type 0 where
  pub ordered : start ≤ end
  pub within : end ≤ length src
  pub sliced : text ≡ slice src start end

pub IsRange-of_drop :
    (src : Bytes) (n end : ℕ) (text rest : Bytes)
    → end ≡ n + length text
    → drop n src ≡ text ++ rest
    → n + length (text ++ rest) ≡ length src
    → IsRange src n end text
IsRange-of_drop src n end text rest q e h = record {
  ordered = omega arith;
  within = omega (arith, length-append text rest);
  sliced = let m : end - n ≡ length text = omega arith in rw (m, e, take-append);
}

drop_further :
    (src : Bytes) (pos : ℕ) (gap s : Bytes)
    → drop pos src ≡ gap ++ s
    → drop (pos + length gap) src ≡ s
drop_further src pos gap s e =
    drop-add pos (length gap) src ∙ ap (drop (length gap)) e ∙ drop-append gap s

Tiles-IsRange :
    {pos : ℕ} {b : Bool} {s : Bytes} {toks : List Token} (src : Bytes)
    → Tiles pos b s toks
    → drop pos src ≡ s
    → pos + length s ≡ length src
    → All (λ t. IsRange src t.start t.end t.text) toks
Tiles-IsRange {pos} {s} src (stop {t} g e) d h = rw e (
  IsRange-of_drop src (pos + length s) (pos + length s) [] [] (omega arith)
      (drop_further src pos s [] (d ∙ sym (append-nil s))) (omega arith),
  tt,
)
Tiles-IsRange {pos} src (token {gap} {rest} {t} g e st en f ne cs r) d h =
    let here : drop t.start src ≡ t.text ++ rest =
      ap (λ n. drop n src) st ∙ drop_further src pos gap (t.text ++ rest) (d ∙ e) in
    let size = ap length e ∙ length-append gap (t.text ++ rest) in
    let size' = length-append t.text rest in
    (
      IsRange-of_drop src t.start t.end t.text rest en here (omega arith),
      Tiles-IsRange src r (ap (λ n. drop n src) en ∙ drop_further src t.start t.text rest here)
          (omega arith),
    )

-- Every token of the stream has a range inside the text, and its text is that slice of it.
pub scan-IsRange : (src : Bytes) → All (λ t. IsRange src t.start t.end t.text) (scan src)
scan-IsRange src = Tiles-IsRange src (scan-Tiles src) refl (omega arith)
