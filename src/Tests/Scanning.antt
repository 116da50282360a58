-- ===== src/Tests/Scanning.antt =====
-- The scanner and the parser at small scripts.
use tcl_lsp_nvim.Base.{true, List, [], ◌∷◌, ◌≡◌, ◌≢◌, refl, map, arith, Bytes, codes, All, flatten}
use tcl_lsp_nvim.Scanner.{scan, balanced_span}
use tcl_lsp_nvim.Scanner.Tiles.{Tiles, scan-Tiles}
use tcl_lsp_nvim.Scanner.Braces.{
  IsBalanced, nothing, plain, nested, AreBrackets, balanced_span-balanced,
}
use tcl_lsp_nvim.Parser.{parse}
use tcl_lsp_nvim.Parser.Words.{parse-ne-nil, IsWordOf, parse-IsWordOf, AreOrdered, parse-AreOrdered}
use tcl_lsp_nvim.Parser.RoundTrip.{bare, braced, render, texts, parse-render}

abbrev script : Bytes
script = codes "# top\nset x {a {b} c} ; puts \"$x [f 1]\"\\\n  end\n"

parse_script :
    texts (parse script)
    ≡ (codes "set" ∷ codes "x" ∷ codes "{a {b} c}" ∷ [])
      ∷ (codes "puts" ∷ codes "\"$x [f 1]\"" ∷ codes "end" ∷ [])
      ∷ []
unfolding parse
parse_script = refl

parse_offsets : map (λ w. w.start) (flatten (parse script)) ≡ 6 ∷ 10 ∷ 12 ∷ 24 ∷ 29 ∷ 43 ∷ []
unfolding parse
parse_offsets = refl

scan-Tiles_example : Tiles 0 true script (scan script)
scan-Tiles_example = scan-Tiles script

braces : AreBrackets b'{' b'}'
braces = record { open_plain = omega arith; close_plain = omega arith; differ = omega arith }

balanced : IsBalanced b'{' b'}' (codes "a{b}")
balanced =
    plain (omega arith) (omega arith) (omega arith)
      (nested (plain (omega arith) (omega arith) (omega arith) nothing) nothing)

balanced_span-balanced_example : balanced_span b'{' b'}' 0 (codes "{a{b}} c") ≡ 6
balanced_span-balanced_example =
    balanced_span-balanced b'{' b'}' braces (codes "a{b}") (codes " c") balanced

parse-ne-nil_example : All (λ c. c ≢ []) (parse script)
parse-ne-nil_example = parse-ne-nil script

parse-IsWordOf_example : All (All (IsWordOf script)) (parse script)
parse-IsWordOf_example = parse-IsWordOf script

parse-AreOrdered_example : AreOrdered 0 (flatten (parse script))
parse-AreOrdered_example = parse-AreOrdered script

abbrev commands : List (List Bytes)
commands = (codes "puts" ∷ codes "{a{b}}" ∷ []) ∷ (codes "exit" ∷ []) ∷ []

parse-render_example : texts (parse (render commands)) ≡ commands
parse-render_example = parse-render commands (
  ((λ e. cc), (bare refl (refl, (refl, (refl, tt))), (braced balanced, tt))),
  (((λ e. cc), (bare refl (refl, (refl, (refl, tt))), tt)), tt),
)
