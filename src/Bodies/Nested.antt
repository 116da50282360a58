-- ===== src/Bodies/Nested.antt =====
-- The bodies of a parsed command stand where their offsets say, and are shorter than the text that
-- was parsed: what makes the walkers' recursion right and finite.
use tcl_lsp_nvim.Base.{
  ℕ, ◌+◌, ◌-◌, ◌≤◌, ◌<◌, [], ap, arith, Bytes, length, drop, length-drop, length-take-le_length,
  All, All-mono, if_cases,
}
use tcl_lsp_nvim.Parser.{Word, Command}
use tcl_lsp_nvim.Parser.Words.{IsWordOf}
use tcl_lsp_nvim.Located.{Located, Located-drop, Located-take, Located-IsRange}
use tcl_lsp_nvim.Syntax.{Context, is_wrapped, interior, braced_inner}
use tcl_lsp_nvim.Bodies.{Body, child_bodies}
use tcl_lsp_nvim.Bodies.Words.{OfWord, child_bodies-All}

pub length-braced_inner : (w : Word) → 0 < length w.text → length (braced_inner w) < length w.text
unfolding braced_inner
length-braced_inner w h =
    if_cases (λ t. length t < length w.text) (is_wrapped w.text) (interior w.text) []
      (λ _. omega (
        arith,
        length-take-le_length (length w.text - 1 - 1) (drop 1 w.text),
        length-drop 1 w.text,
      ))
      λ _. h

pub braced_inner-Located :
    (src : Bytes) (pos : ℕ) (w : Word)
    → 0 < length w.text
    → Located src pos w.text
    → Located src (pos + 1) (braced_inner w)
unfolding braced_inner
braced_inner-Located src pos w h l =
    if_cases (Located src (pos + 1)) (is_wrapped w.text) (interior w.text) []
      (λ _. Located-take src (pos + 1) (length w.text - 1 - 1) (drop 1 w.text) behind)
      λ _. Located-take src (pos + 1) 0 (drop 1 w.text) behind
  where
    behind : Located src (pos + 1) (drop 1 w.text)
    behind = Located-drop src pos 1 w.text h l

pub IsWordOf-pos : (text : Bytes) (w : Word) → IsWordOf text w → 0 < length w.text
IsWordOf-pos text w h = let (c, s, e, _) = h.fits in omega (arith, ap length e)

pub IsWordOf-le : (text : Bytes) (w : Word) → IsWordOf text w → length w.text ≤ length text
IsWordOf-le text w h =
    let r = h.range in
    omega (
      arith,
      r.within,
      ap length r.sliced,
      length-take-le_length (w.end - w.start) (drop w.start text),
      length-drop w.start text,
    )

-- A body of a command in `text`: it stands in `src` at its offset, and is shorter than `text`.
pub record IsNested (src text : Bytes) (b : Body) : Type 0 where
  pub located : Located src b.base b.inner
  pub shorter : length b.inner < length text
  pub behind : 0 < b.base

body_of-IsNested :
    (src text : Bytes) (base : ℕ) (w : Word)
    → Located src base text
    → IsWordOf text w
    → OfWord (IsNested src text) base w
body_of-IsNested src text base w l h scope = record {
  located =
      braced_inner-Located src (base + w.start) w (IsWordOf-pos text w h)
        (Located-IsRange src base w.start w.end text w.text l h.range);
  shorter = omega (arith, length-braced_inner w (IsWordOf-pos text w h), IsWordOf-le text w h);
  behind = omega arith;
}

-- Every body of every command of a text, whatever kind of body it is.
pub child_bodies-IsNested :
    (src text : Bytes) (base : ℕ) (cx : Context) (c : Command)
    → Located src base text
    → All (IsWordOf text) c
    → All (IsNested src text) (child_bodies c base cx)
child_bodies-IsNested src text base cx c l h = child_bodies-All (IsNested src text) base c cx (
    All-mono (IsWordOf text) (OfWord (IsNested src text) base) c
      (λ w. body_of-IsNested src text base w l) h)
