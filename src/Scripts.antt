-- ===== src/Scripts.antt =====
-- server/internal/tcl/bodies.go: which braced words of a command are scripts that run in the
-- enclosing scope, and which are expressions.
pub mod Words
pub mod Partition
use tcl_lsp_nvim.Base.{
  ℕ, zero, suc, ◌+◌, ◌-◌, Bool, true, false, ◌&&◌, ◌||◌, not, List, [], ◌∷◌, ◌++◌, map, Option,
  none, some, ◌==◌, leb, ltb, if◌then◌else◌, Bytes, codes, length, take, drop, slice, get_elem?,
  has_prefix, eql, one_of, last_index_of,
}
use tcl_lsp_nvim.Parser.{WordKind, bare, braced, quoted, Word, Command}
use tcl_lsp_nvim.Syntax.{
  FrameKind, frame_namespace, frame_proc, frame_class, Context, is_bare, is_braced, in_class,
  in_proc, in_namespace, is_word, is_cmd, is_either, qualify_name, qualify_namespace, braced_inner,
  inner_base, is_literal_name, is_plain_name, braced_of, braced_at, last_word, last_braced,
  has_last_braced, text_at,
}

abbrev pub is_condition_of : Word → Bool
is_condition_of prev = is_bare prev && one_of prev.text (codes "if" ∷ codes "elseif" ∷ [])

-- The loops of `ifBodies` and `ifConditions`, with `prev` the word in front.
unfoldable pub if_bodies_from : Word → List Word → List Word
unfolding one_of
if_bodies_from prev [] = []
if_bodies_from prev (x ∷ w) =
    let rest = if_bodies_from x w in
    if not (is_braced x) then rest else if is_condition_of prev then rest else x ∷ rest

unfoldable pub if_conditions_from : Word → List Word → List Word
unfolding one_of
if_conditions_from prev [] = []
if_conditions_from prev (x ∷ w) =
    let rest = if_conditions_from x w in
    if not (is_braced x) then rest else if is_condition_of prev then x ∷ rest else rest

unfoldable pub if_bodies : Command → List Word
unfolding if_bodies_from
if_bodies [] = []
if_bodies (h ∷ w) = if_bodies_from h w

unfoldable pub if_conditions : Command → List Word
unfolding if_conditions_from
if_conditions [] = []
if_conditions (h ∷ w) = if_conditions_from h w

-- The loop of `tryBodies`.
unfoldable pub handler_bodies : List Word → List Word
unfolding one_of eql
handler_bodies [] = []
handler_bodies (x ∷ w) =
    let rest = handler_bodies w in
    if not (is_bare x)
    then rest
    else if one_of x.text (codes "on" ∷ codes "trap" ∷ [])
    then braced_at w 2 ++ rest
    else if eql x.text (codes "finally")
    then braced_at w 0 ++ rest
    else rest

unfoldable pub try_bodies : Command → List Word
unfolding handler_bodies
try_bodies w = braced_at w 1 ++ handler_bodies (drop 2 w)

abbrev data_brace_commands : List Bytes
data_brace_commands =
    codes "expr"
    ∷ codes "set"
    ∷ codes "list"
    ∷ codes "lappend"
    ∷ codes "lset"
    ∷ codes "append"
    ∷ codes "incr"
    ∷ codes "array"
    ∷ codes "string"
    ∷ codes "global"
    ∷ codes "variable"
    ∷ codes "common"
    ∷ codes "return"
    ∷ []

-- `dict for` or `dict map`
abbrev pub is_dict_loop : Command → Bool
is_dict_loop w = elim (get_elem? w 1) [
  | none ↦ false
  | some x ↦ is_bare x && one_of x.text (codes "for" ∷ codes "map" ∷ [])
]

-- The switch of `scriptBodies` on the head's text.
unfoldable pub script_bodies_of : Bytes → Command → List Word
unfolding one_of eql if_bodies try_bodies
script_bodies_of head w =
    if one_of head (codes "while" ∷ codes "foreach" ∷ codes "lmap" ∷ [])
    then last_braced w
    else if eql head (codes "dict")
    then (if is_dict_loop w then last_braced w else [])
    else if eql head (codes "catch")
    then braced_at w 1
    else if eql head (codes "for")
    then braced_at w 1 ++ (braced_at w 3 ++ braced_at w 4)
    else if eql head (codes "if")
    then if_bodies w
    else if eql head (codes "try")
    then try_bodies w
    else if not (one_of head data_brace_commands)
    then last_braced w
    else []

unfoldable pub script_bodies : Command → List Word
unfolding script_bodies_of
script_bodies [] = []
script_bodies (h ∷ w) = if is_bare h then script_bodies_of h.text (h ∷ w) else []

unfoldable pub braced_words : List Word → List Word
braced_words [] = []
braced_words (x ∷ w) = if is_braced x then x ∷ braced_words w else braced_words w

unfoldable pub expr_bodies : Command → List Word
unfolding eql braced_words if_conditions
expr_bodies [] = []
expr_bodies (h ∷ w) =
    if not (is_bare h)
    then []
    else if eql h.text (codes "expr")
    then braced_words w
    else if eql h.text (codes "while")
    then braced_at w 0
    else if eql h.text (codes "for")
    then braced_at w 1
    else if eql h.text (codes "if")
    then if_conditions (h ∷ w)
    else []
