-- ===== src/Bodies/Shorter.antt =====
-- The bodies of a parsed command are shorter than its text, whatever offset they are given.
use tcl_lsp_nvim.Base.{ℕ, ◌<◌, arith, Bytes, length, All, All-mono}
use tcl_lsp_nvim.Parser.{Command}
use tcl_lsp_nvim.Parser.Words.{IsWordOf}
use tcl_lsp_nvim.Syntax.{Context}
use tcl_lsp_nvim.Bodies.{Body, child_bodies}
use tcl_lsp_nvim.Bodies.Words.{OfWord, child_bodies-All}
use tcl_lsp_nvim.Bodies.Nested.{length-braced_inner, IsWordOf-pos, IsWordOf-le}

abbrev pub IsShorter : Bytes → Body → Type 0
IsShorter text b = length b.inner < length text

pub child_bodies-IsShorter :
    (text : Bytes) (base : ℕ) (cx : Context) (c : Command)
    → All (IsWordOf text) c
    → All (IsShorter text) (child_bodies c base cx)
child_bodies-IsShorter text base cx c h = child_bodies-All (IsShorter text) base c cx (
    All-mono (IsWordOf text) (OfWord (IsShorter text) base) c
      (λ w k scope.
        omega (arith, length-braced_inner w (IsWordOf-pos text w k), IsWordOf-le text w k))
      h)
