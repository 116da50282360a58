-- ===== src/Refs.antt =====
-- server/internal/tcl/refs.go: the references in a command. The functions of refs.go call one another
-- round a circle through `substRefs`; here each is handed `substRefs` as `sub`, and `subst_refs`
-- runs on fuel.
pub mod Located
pub mod Scripts
pub mod Fuel
use mathlib.Core.Option
use tcl_lsp_nvim.Base.{
  ℕ, zero, suc, ◌+◌, ◌-◌, Bool, true, false, ◌&&◌, ◌||◌, not, List, [], ◌∷◌, ◌++◌, map, Option,
  none, some, ◌==◌, leb, ltb, if◌then◌else◌, Bytes, codes, length, take, drop, slice, flatten,
}
use tcl_lsp_nvim.Scanner.{balanced_span}
use tcl_lsp_nvim.Parser.{WordKind, bare, braced, quoted, Word, Command, parse}
use tcl_lsp_nvim.VarRef.{skip_bracket_span, parse_var_ref}
use tcl_lsp_nvim.Syntax.{
  Context, frame_namespace, is_braced, last_byte, braced_inner, inner_base, is_literal_name,
  global_ns,
}
use tcl_lsp_nvim.Scripts.{expr_bodies}
use tcl_lsp_nvim.Bodies.{Body, child_bodies}

pub data RefKind : Type 0 where
  ref_command ref_variable : RefKind

pub record Reference : Type 0 where
  pub kind : RefKind
  pub name : Bytes
  pub start : ℕ
  pub end : ℕ

-- `substRefs`: the inside of a substitution and its offset.
abbrev pub Sub : Type 0
Sub = Bytes → ℕ → List Reference

-- `text[i+1:innerEnd]` at a `[`, from the span that starts there.
abbrev pub bracket_interior : Bytes → Bytes
bracket_interior span =
    slice span 1
      (if ltb 1 (length span) && last_byte span b']' then length span - 1 else length span)

abbrev pub bracket_refs : Sub → ℕ → Bytes → List Reference
bracket_refs sub pos span = sub (bracket_interior span) (pos + 1)

abbrev pub variable_ref : Option Bytes → ℕ → ℕ → List Reference
variable_ref none start end = []
variable_ref (some name) start end =
    record { kind = ref_variable; name = name; start = start; end = end } ∷ []

-- The loops of `exprBracketRefs` and `scanRefs` at `text[i:]`, where `pos` is `base + i`. The flag
-- tells whether `$` is read: in `scanRefs` alone.
unfoldable pub text_refs : Bool → Sub → ℕ → ℕ → Bytes → List Reference
text_refs vars sub fuel pos [] = []
text_refs vars sub zero pos (c ∷ s) = []
text_refs vars sub (suc fuel) pos (c ∷ s) =
    let escaped = text_refs vars sub fuel (pos + 2) (drop 1 s) in
    let (name, size) = parse_var_ref s in
    let variable =
      variable_ref name pos (pos + size)
      ++ text_refs vars sub fuel (pos + size) (drop size (c ∷ s)) in
    let span = skip_bracket_span (c ∷ s) in
    let bracketed =
      bracket_refs sub pos (take span (c ∷ s))
      ++ text_refs vars sub fuel (pos + span) (drop span (c ∷ s)) in
    let onward = text_refs vars sub fuel (pos + 1) s in
    if c == b'\\' && not (length s == 0)
    then escaped
    else if vars && c == b'$'
    then variable
    else if c == b'['
    then bracketed
    else onward

abbrev pub expr_bracket_refs : Sub → Bytes → ℕ → List Reference
expr_bracket_refs sub text base = text_refs false sub (length text) base text

abbrev pub scan_refs : Sub → Bytes → ℕ → List Reference
scan_refs sub text base = text_refs true sub (length text) base text

abbrev pub word_refs : Sub → Word → List Reference
word_refs sub w = if is_braced w then [] else scan_refs sub w.text w.start

-- Whether a word of `ws` starts at `start`: the set `exprWord`.
unfoldable pub starts_at : ℕ → List Word → Bool
starts_at start [] = false
starts_at start (w ∷ ws) = start == w.start || starts_at start ws

-- The loop's turn at a word; the flag is `idx == 0`.
unfoldable pub refs_of_word : Sub → List Word → Bool → Word → List Reference
unfolding starts_at is_literal_name text_refs braced_inner parse_var_ref balanced_span
refs_of_word sub exprs first w =
    if first && is_literal_name w
    then record { kind = ref_command; name = w.text; start = w.start; end = w.end } ∷ []
    else if is_braced w && starts_at w.start exprs
    then expr_bracket_refs sub (braced_inner w) (inner_base w 0)
    else word_refs sub w

unfoldable pub command_refs : Sub → Command → List Reference
unfolding refs_of_word expr_bodies
command_refs sub [] = []
command_refs sub (h ∷ ws) =
    let exprs = expr_bodies (h ∷ ws) in
    refs_of_word sub exprs true h ++ flatten (map (refs_of_word sub exprs false) ws)

abbrev pub shift : ℕ → Reference → Reference
shift base r = record r { start = r.start + base; end = r.end + base }

abbrev pub neutral : Context
neutral = record { ns = global_ns; frame = frame_namespace; scope = 0; class = [] }

abbrev pub body_refs : Sub → List Body → List Reference
body_refs sub bodies = flatten (map (λ b. sub b.inner b.base) bodies)

-- The loop of `substRefs` over the commands of the interior.
unfoldable pub script_refs : Sub → ℕ → List Command → List Reference
unfolding command_refs child_bodies
script_refs sub base [] = []
script_refs sub base (c ∷ cmds) =
    map (shift base) (command_refs sub c)
    ++ (body_refs sub (child_bodies c base neutral) ++ script_refs sub base cmds)

unfoldable pub subst_refs : ℕ → Sub
unfolding script_refs parse
subst_refs zero inner base = []
subst_refs (suc fuel) inner base = script_refs (subst_refs fuel) base (parse inner)

-- `substRefs`, with fuel for every substitution that the text can hold.
unfoldable pub sub_refs : Sub
unfolding subst_refs
sub_refs inner base = subst_refs (suc (length inner)) inner base

-- `CommandRefs`
unfoldable pub refs_of_command : Command → List Reference
unfolding sub_refs
refs_of_command = command_refs sub_refs
