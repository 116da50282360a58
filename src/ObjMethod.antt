-- ===== src/ObjMethod.antt =====
-- server/internal/tcl/objmethod.go: the shape `$var method` at an offset. A result is the receiver's
-- offset and the method's name; `none` is `ok == false`.
pub mod Calls
pub mod Fuel
use mathlib.Core.Option
use tcl_lsp_nvim.Base.{
  ℕ, zero, suc, ◌+◌, ◌-◌, Bool, true, false, ◌&&◌, ◌||◌, not, List, [], ◌∷◌, Option, none, some,
  or_else, ◌==◌, leb, ltb, if◌then◌else◌, Bytes, length, take, drop,
}
use tcl_lsp_nvim.Scanner.{balanced_span}
use tcl_lsp_nvim.Parser.{Word, Command, parse}
use tcl_lsp_nvim.VarRef.{skip_bracket_span, parse_var_ref}
use tcl_lsp_nvim.Syntax.{Context, is_bare, is_braced, is_plain_name, first_byte, braced_inner}
use tcl_lsp_nvim.Bodies.{Body, child_bodies}
use tcl_lsp_nvim.Refs.{bracket_interior}
use tcl_lsp_nvim.Walk.{file_body}
use tcl_lsp_nvim.Nesting.{nested}

abbrev pub Found : Type 0
Found = Option (ℕ × Bytes)

abbrev pub is_within : ℕ → ℕ → ℕ → Bool
is_within offset start end = leb start offset && ltb offset end

-- Whether `parseVarRef` at the start of the text reads a reference that ends with it.
abbrev pub is_whole : Option Bytes × ℕ → ℕ → Bool
is_whole (none, size) n = false
is_whole (some name, size) n = size == n

abbrev pub is_lone_var : Word → Bool
is_lone_var w =
    is_bare w
    && leb 2 (length w.text)
    && first_byte w.text b'$'
    && is_whole (parse_var_ref (drop 1 w.text)) (length w.text)

unfoldable pub obj_method_at_cmd : Command → ℕ → ℕ → Found
unfolding parse_var_ref
obj_method_at_cmd (head ∷ method ∷ _) base offset =
    if is_within offset (base + method.start) (base + method.end)
      && is_plain_name method
      && is_lone_var head
    then some (base + head.start + 1, method.text)
    else none
obj_method_at_cmd _ base offset = none

-- The loop of `objMethodInSubsts` at `text[i:]`, where `pos` is `base + i`; `rec` searches a piece of
-- script. On fuel; each turn passes a byte at least.
unfoldable pub obj_method_in_text : (Body → Found) → Context → ℕ → ℕ → Bytes → Found
unfolding balanced_span
obj_method_in_text rec cx fuel pos [] = none
obj_method_in_text rec cx zero pos (c ∷ s) = none
obj_method_in_text rec cx (suc fuel) pos (c ∷ s) =
    let escaped = obj_method_in_text rec cx fuel (pos + 2) (drop 1 s) in
    let span = skip_bracket_span (c ∷ s) in
    let inner : Body = record {
      inner = bracket_interior (take span (c ∷ s));
      base = pos + 1;
      context = cx;
    } in
    let bracketed =
      or_else (rec inner) (obj_method_in_text rec cx fuel (pos + span) (drop span (c ∷ s))) in
    let onward = obj_method_in_text rec cx fuel (pos + 1) s in
    if c == b'\\' && not (length s == 0) then escaped else if c == b'[' then bracketed else onward

unfoldable pub obj_method_in_word : (Body → Found) → Word → ℕ → Context → Found
unfolding obj_method_in_text
obj_method_in_word rec w base cx =
    if is_braced w then none else obj_method_in_text rec cx (length w.text) (base + w.start) w.text

unfoldable pub obj_method_in_words : (Body → Found) → List Word → ℕ → Context → Found
unfolding obj_method_in_word
obj_method_in_words rec [] base cx = none
obj_method_in_words rec (w ∷ ws) base cx =
    or_else (obj_method_in_word rec w base cx) (obj_method_in_words rec ws base cx)

unfoldable pub obj_method_in_bodies : (Body → Found) → List Body → Found
obj_method_in_bodies rec [] = none
obj_method_in_bodies rec (b ∷ bs) = or_else (rec b) (obj_method_in_bodies rec bs)

-- The loop of `objMethodInCmds`.
unfoldable pub obj_method_in_cmds : ℕ → (Body → Found) → ℕ → Context → List Command → Found
unfolding obj_method_at_cmd obj_method_in_bodies obj_method_in_words child_bodies
obj_method_in_cmds offset rec base cx [] = none
obj_method_in_cmds offset rec base cx (c ∷ cmds) = or_else (obj_method_at_cmd c base offset) (
    or_else (obj_method_in_bodies rec (child_bodies c base cx))
      (or_else (obj_method_in_words rec c base cx) (obj_method_in_cmds offset rec base cx cmds)))

-- One call on the script of a body or of a substitution.
unfoldable pub search_body : ℕ → (Body → Found) → Body → Found
unfolding obj_method_in_cmds parse
search_body offset rec b = obj_method_in_cmds offset rec b.base b.context (parse b.inner)

abbrev pub body_size : Body → ℕ
body_size b = length b.inner

unfoldable pub obj_method_in : ℕ → Body → Found
unfolding search_body nested
obj_method_in offset = nested body_size none (search_body offset)

unfoldable pub obj_method_at : Bytes → ℕ → Found
unfolding obj_method_in
obj_method_at src offset = obj_method_in offset (file_body src)
