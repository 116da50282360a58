-- ===== src/VarRef.antt =====
-- server/internal/tcl/varref.go: the $-substitutions in a word. A loop over `text` with index `i`
-- is handed `text[i:]` here, and a name's range is counted from the `$`.
pub mod Spelling
use mathlib.Core.Option
use tcl_lsp_nvim.Base.{
  ℕ, zero, suc, ◌+◌, ◌-◌, Bool, true, false, ◌&&◌, ◌||◌, not, List, [], ◌∷◌, ◌++◌, Option, none,
  some, ◌==◌, leb, if◌then◌else◌, Bytes, codes, length, take, drop, has_prefix,
}
use tcl_lsp_nvim.Scanner.{balanced_span}
use tcl_lsp_nvim.Parser.{WordKind, bare, braced, quoted, Word}

pub record VarRef : Type 0 where
  pub name : Bytes
  pub start : ℕ
  pub end : ℕ

-- `skipBracketSpan(text, i) - i`, at `text[i:]`: the loop of `scanBracket`.
abbrev pub skip_bracket_span : Bytes → ℕ
skip_bracket_span = balanced_span b'[' b']' 0

unfoldable pub is_name_byte : ℕ → Bool
is_name_byte b =
    b == b'_' || leb b'a' b && leb b b'z' || leb b'A' b && leb b b'Z' || leb b'0' b && leb b b'9'

-- `for j < len(text) && isNameByte(text[j]) { j++ }`, as the number of bytes passed.
unfoldable pub name_run : Bytes → ℕ
unfolding is_name_byte
name_run [] = 0
name_run (c ∷ s) = let more = suc (name_run s) in if is_name_byte c then more else 0

abbrev pub colons : Bytes
colons = codes "::"

-- The last loop of `parseVarRef`: `::` and the segment behind it, as often as they come. On fuel;
-- each turn passes three bytes at least.
unfoldable pub segments : ℕ → Bytes → ℕ
unfolding name_run has_prefix
segments zero s = 0
segments (suc fuel) s =
    let seg = name_run (drop 2 s) in
    let more = 2 + seg + segments fuel (drop (2 + seg) s) in
    if has_prefix s colons then (if seg == 0 then 0 else more) else 0

-- Bytes up to the first `}`, if there is one.
unfoldable pub to_brace : Bytes → Option ℕ
to_brace [] = none
to_brace (c ∷ s) = let more = Option.map suc (to_brace s) in if c == b'}' then some 0 else more

abbrev pub braced_ref : Bytes → Option ℕ → Option Bytes × ℕ
braced_ref inner none = (none, 2 + length inner)
braced_ref inner (some zero) = (none, 3)
braced_ref inner (some (suc j)) = (some (take (suc j) inner), suc (suc (suc (suc j))))

-- A bare name: `first` is the length of its first segment, `size` that of the whole.
abbrev pub name_ref : Bytes → ℕ → ℕ → Option Bytes × ℕ
name_ref s first size = if first == 0 then (none, 1) else (some (take size s), suc size)

abbrev pub bare_ref : Bytes → Option Bytes × ℕ
bare_ref s =
    let lead = if has_prefix s colons then 2 else 0 in
    let first = name_run (drop lead s) in
    name_ref s first (lead + first + segments (length s) (drop (lead + first) s))

-- `parseVarRef` at the text behind a `$`: the name, if there is a reference, and the number of
-- bytes from the `$` to where the caller goes on, which is the reference's end.
unfoldable pub parse_var_ref : Bytes → Option Bytes × ℕ
unfolding name_run segments to_brace has_prefix
parse_var_ref [] = (none, 1)
parse_var_ref (c ∷ s) = if c == b'{' then braced_ref s (to_brace s) else bare_ref (c ∷ s)

abbrev pub add_ref : Option Bytes → ℕ → ℕ → List VarRef → List VarRef
add_ref none start end refs = refs
add_ref (some name) start end refs = record { name = name; start = start; end = end } ∷ refs

-- `scanVarRefs` at `text[i:]`, where `pos` is `base + i`. On fuel; each turn passes a byte at least.
unfoldable pub scan_var_refs : ℕ → ℕ → Bytes → List VarRef
unfolding parse_var_ref balanced_span
scan_var_refs fuel pos [] = []
scan_var_refs zero pos (c ∷ s) = []
scan_var_refs (suc fuel) pos (c ∷ s) =
    let escaped = scan_var_refs fuel (pos + 2) (drop 1 s) in
    let span = skip_bracket_span (c ∷ s) in
    let skipped = scan_var_refs fuel (pos + span) (drop span (c ∷ s)) in
    let (name, size) = parse_var_ref s in
    let reference =
      add_ref name pos (pos + size) (scan_var_refs fuel (pos + size) (drop size (c ∷ s))) in
    let onward = scan_var_refs fuel (pos + 1) s in
    if c == b'\\' && not (length s == 0)
    then escaped
    else if c == b'['
    then skipped
    else if c == b'$'
    then reference
    else onward

unfoldable pub word_var_refs : Word → List VarRef
unfolding scan_var_refs
word_var_refs w = elim w.kind [ braced ↦ [] | _ ↦ scan_var_refs (length w.text) w.start w.text ]
