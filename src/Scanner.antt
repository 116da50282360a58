-- ===== src/Scanner.antt =====
-- The tokenizer of server/internal/tcl/scanner.go. The struct `scanner` holds `src` and `pos`; here
-- each function is handed `src[pos:]`, and a sub-scanner returns the number of bytes by which
-- it moves `pos`. `lex` is the loop of `scan`: `round` is one turn of it.
pub mod Advance
pub mod Tiles
pub mod Ranges
pub mod Braces
pub mod Closing
use tcl_lsp_nvim.Base.{
  ℕ, zero, suc, ◌+◌, ◌-◌, Bool, true, false, ◌&&◌, ◌||◌, List, [], ◌∷◌, Option, none, some, ◌==◌,
  if◌then◌else◌, Bytes, length, take, drop,
}

pub data Kind : Type 0 where
  eof newline semicolon comment word : Kind

pub record Token : Type 0 where
  pub kind : Kind
  pub text : Bytes
  pub start : ℕ
  pub end : ℕ

-- The bytes that `scan` skips between words.
abbrev pub is_blank : ℕ → Bool
is_blank c = c == b' ' || c == b'\t' || c == b'\r'

-- The loop that `scanBraced`, `scanBracket` and `skipBracketSpan` share: from an opening byte
-- to the byte that closes it. A call starts at depth 0 on `open`, so the depth is positive
-- whenever `close` is met, and `depth - 1` is the source's `depth--`.
unfoldable pub balanced_span : ℕ → ℕ → ℕ → Bytes → ℕ
balanced_span open' close depth [] = 0
balanced_span open' close depth (c ∷ []) = 1
balanced_span open' close depth (c ∷ d ∷ rest) =
    let escaped = suc (suc (balanced_span open' close depth rest)) in
    let deeper = suc (balanced_span open' close (suc depth) (d ∷ rest)) in
    let shallower = suc (balanced_span open' close (depth - 1) (d ∷ rest)) in
    let onward = suc (balanced_span open' close depth (d ∷ rest)) in
    if c == b'\\'
    then escaped
    else if c == open'
    then deeper
    else if c == close
    then (if depth == 1 then 1 else shallower)
    else onward

abbrev pub scan_braced : Bytes → ℕ
scan_braced = balanced_span b'{' b'}' 0

abbrev pub scan_bracket : Bytes → ℕ
scan_bracket = balanced_span b'[' b']' 0

-- The loop of `scanQuoted`, behind the opening quote.
unfoldable pub quoted_tail : Bytes → ℕ
quoted_tail [] = 0
quoted_tail (c ∷ []) = 1
quoted_tail (c ∷ d ∷ rest) =
    let escaped = suc (suc (quoted_tail rest)) in
    let onward = suc (quoted_tail (d ∷ rest)) in
    if c == b'\\' then escaped else if c == b'"' then 1 else onward

abbrev pub scan_quoted : Bytes → ℕ
scan_quoted [] = 0
scan_quoted (_ ∷ rest) = suc (quoted_tail rest)

unfoldable pub scan_comment : Bytes → ℕ
scan_comment [] = 0
scan_comment (c ∷ []) = if c == b'\n' then 0 else 1
scan_comment (c ∷ d ∷ rest) =
    let escaped = suc (suc (scan_comment rest)) in
    let onward = suc (scan_comment (d ∷ rest)) in
    if c == b'\n' then 0 else if c == b'\\' then escaped else onward

abbrev pub ends_bare : ℕ → Bool
ends_bare c = is_blank c || c == b'\n' || c == b';'

-- `scanBare`, on fuel: each turn of its loop moves on by at least one byte.
unfoldable pub scan_bare : ℕ → Bytes → ℕ
scan_bare zero rest = 0
scan_bare (suc fuel) [] = 0
scan_bare (suc fuel) (c ∷ []) = if ends_bare c then 0 else 1
scan_bare (suc fuel) (c ∷ d ∷ rest) =
    let escaped = suc (suc (scan_bare fuel rest)) in
    let span = scan_bracket (c ∷ d ∷ rest) in
    let bracketed = span + scan_bare fuel (drop span (c ∷ d ∷ rest)) in
    let onward = suc (scan_bare fuel (d ∷ rest)) in
    if c == b'\\'
    then escaped
    else if c == b'['
    then bracketed
    else if ends_bare c
    then 0
    else onward

-- `scanWord`, less its `emit`.
unfoldable pub scan_word : Bytes → ℕ
scan_word [] = 0
scan_word (c ∷ next) =
    if c == b'{'
    then scan_braced (c ∷ next)
    else if c == b'"'
    then scan_quoted (c ∷ next)
    else scan_bare (suc (length next)) (c ∷ next)

abbrev pub continues : ℕ → Bytes → Bool
continues c [] = false
continues c (d ∷ _) = c == b'\\' && d == b'\n'

-- One turn of the loop of `scan` at byte `c`: the kind of the token that it emits, if any, and
-- the number of bytes that it moves on.
unfoldable pub round : Bool → ℕ → Bytes → Option Kind × ℕ
round at_command_start c next =
    if is_blank c
    then (none, 1)
    else if continues c next
    then (none, 2)
    else if c == b'\n'
    then (some newline, 1)
    else if c == b';'
    then (some semicolon, 1)
    else if c == b'#' && at_command_start
    then (some comment, scan_comment (c ∷ next))
    else (some word, scan_word (c ∷ next))

-- The new value of `atCommandStart`.
abbrev pub command_start : Bool → Option Kind → Bool
command_start b (some newline) = true
command_start b (some semicolon) = true
command_start b (some word) = false
command_start b _ = b

abbrev pub emit : Option Kind → ℕ → ℕ → Bytes → List Token → List Token
emit none pos n rest toks = toks
emit (some k) pos n rest toks =
    record { kind = k; text = take n rest; start = pos; end = pos + n } ∷ toks

unfoldable pub lex : ℕ → ℕ → Bool → Bytes → List Token
lex fuel pos b [] = record { kind = eof; text = []; start = pos; end = pos } ∷ []
lex zero pos b (c ∷ next) = []
lex (suc fuel) pos b (c ∷ next) =
    let (k, n) = round b c next in
    emit k pos n (c ∷ next) (lex fuel (pos + n) (command_start b k) (drop n (c ∷ next)))

unfoldable pub scan : Bytes → List Token
unfolding lex round scan_word scan_bare scan_comment quoted_tail balanced_span
scan src = lex (length src) 0 true src
