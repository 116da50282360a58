-- ===== src/Parser.antt =====
-- server/internal/tcl/parser.go: tokens grouped into commands. The closure `flush` and the slices
-- `cmds` and `cur` of `Parse` are the arguments and the result of `group`.
pub mod Words
pub mod RoundTrip
use tcl_lsp_nvim.Base.{ℕ, ◌+◌, Bool, true, false, List, [], ◌∷◌, ◌++◌, ◌==◌, if◌then◌else◌, Bytes}
use tcl_lsp_nvim.Scanner.{Kind, eof, newline, semicolon, comment, word, Token, scan}

pub data WordKind : Type 0 where
  bare braced quoted : WordKind

pub record Word : Type 0 where
  pub kind : WordKind
  pub text : Bytes
  pub start : ℕ
  pub end : ℕ

-- The struct `Command` has one field, its words.
abbrev pub Command : Type 0
Command = List Word

unfoldable pub word_kind : Bytes → WordKind
word_kind [] = bare
word_kind (c ∷ _) = if c == b'{' then braced else if c == b'"' then quoted else bare

abbrev pub word_from_token : Token → Word
word_from_token tk = record {
  kind = word_kind tk.text;
  text = tk.text;
  start = tk.start;
  end = tk.end;
}

-- An empty command is left out.
abbrev pub flush : List Word → List Command → List Command
flush [] cmds = cmds
flush (w ∷ cur) cmds = (w ∷ cur) ∷ cmds

-- The loop of `Parse`: `cur` holds the words read since the last separator.
unfoldable pub group : List Word → List Token → List Command
group cur [] = []
group cur (tk ∷ toks) = elim tk.kind [
  | word ↦ group (cur ++ word_from_token tk ∷ []) toks
  | comment ↦ group cur toks
  | _ ↦ flush cur (group [] toks)
]

unfoldable pub parse : Bytes → List Command
unfolding group scan word_kind
parse src = group [] (scan src)
