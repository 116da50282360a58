-- ===== src/Scanner/Advance.antt =====
-- How far the sub-scanners of scanner.go move: never past the end, and at least one byte a turn.
use tcl_lsp_nvim.Base.{
  ℕ, zero, suc, ◌-◌, ◌≤◌, ◌<◌, Bool, false, [], ◌∷◌, ◌≡◌, arith, Bytes, length, drop, length-drop,
}
use tcl_lsp_nvim.Scanner.{
  ends_bare, balanced_span, scan_bracket, quoted_tail, scan_comment, scan_bare, scan_word, round,
}

pub balanced_span-le : (o c depth : ℕ) (s : Bytes) → balanced_span o c depth s ≤ length s
unfolding balanced_span
balanced_span-le o c depth [] = omega arith
balanced_span-le o c depth (x ∷ []) = omega arith
balanced_span-le o c depth (x ∷ y ∷ s) = ground (
  arith,
  balanced_span-le o c depth s,
  balanced_span-le o c (suc depth) (y ∷ s),
  balanced_span-le o c (depth - 1) (y ∷ s),
  balanced_span-le o c depth (y ∷ s),
)

pub balanced_span-pos : (o c depth x : ℕ) (s : Bytes) → 0 < balanced_span o c depth (x ∷ s)
unfolding balanced_span
balanced_span-pos o c depth x [] = omega arith
balanced_span-pos o c depth x (y ∷ s) = ground arith

quoted_tail-le : (s : Bytes) → quoted_tail s ≤ length s
unfolding quoted_tail
quoted_tail-le [] = omega arith
quoted_tail-le (x ∷ []) = omega arith
quoted_tail-le (x ∷ y ∷ s) = ground (arith, quoted_tail-le s, quoted_tail-le (y ∷ s))

scan_comment-le : (s : Bytes) → scan_comment s ≤ length s
unfolding scan_comment
scan_comment-le [] = omega arith
scan_comment-le (x ∷ []) = ground arith
scan_comment-le (x ∷ y ∷ s) = ground (arith, scan_comment-le s, scan_comment-le (y ∷ s))

pub scan_comment-pos : (s : Bytes) → 0 < scan_comment (b'#' ∷ s)
unfolding scan_comment
scan_comment-pos [] = omega arith
scan_comment-pos (y ∷ s) = omega arith

scan_bare-le : (f : ℕ) (s : Bytes) → scan_bare f s ≤ length s
unfolding scan_bare
scan_bare-le zero s = omega arith
scan_bare-le (suc f) [] = omega arith
scan_bare-le (suc f) (x ∷ []) = ground arith
scan_bare-le (suc f) (x ∷ y ∷ s) = ground (
  arith,
  scan_bare-le f s,
  scan_bare-le f (y ∷ s),
  scan_bare-le f (drop (scan_bracket (x ∷ y ∷ s)) (x ∷ y ∷ s)),
  balanced_span-le b'[' b']' 0 (x ∷ y ∷ s),
  length-drop (scan_bracket (x ∷ y ∷ s)) (x ∷ y ∷ s),
)

scan_bare-pos : (f x : ℕ) (s : Bytes) → ends_bare x ≡ false → 0 < scan_bare (suc f) (x ∷ s)
unfolding scan_bare
scan_bare-pos f x [] h = ground arith
scan_bare-pos f x (y ∷ s) h = ground (arith, balanced_span-pos b'[' b']' 0 x (y ∷ s))

scan_word-le : (s : Bytes) → scan_word s ≤ length s
unfolding scan_word
scan_word-le [] = omega arith
scan_word-le (x ∷ s) = ground (
  arith,
  balanced_span-le b'{' b'}' 0 (x ∷ s),
  quoted_tail-le s,
  scan_bare-le (suc (length s)) (x ∷ s),
)

pub scan_word-pos : (x : ℕ) (s : Bytes) → ends_bare x ≡ false → 0 < scan_word (x ∷ s)
unfolding scan_word
scan_word-pos x s h =
    ground (arith, balanced_span-pos b'{' b'}' 0 x s, scan_bare-pos (length s) x s h)

pub round-le : (b : Bool) (c : ℕ) (next : Bytes) → (round b c next).1 ≤ suc (length next)
unfolding round
round-le b c [] = ground (arith, scan_comment-le (c ∷ []), scan_word-le (c ∷ []))
round-le b c (d ∷ s) = ground (arith, scan_comment-le (c ∷ d ∷ s), scan_word-le (c ∷ d ∷ s))

pub round-pos : (b : Bool) (c : ℕ) (next : Bytes) → 0 < (round b c next).1
unfolding round
round-pos b c [] = ground (arith, scan_comment-pos [], scan_word-pos c [])
round-pos b c (d ∷ s) = ground (arith, scan_comment-pos (d ∷ s), scan_word-pos c (d ∷ s))
