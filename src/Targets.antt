-- ===== src/Targets.antt =====
-- server/internal/tcl/defs.go: the names that a word declares, with their ranges: array elements,
-- upvar levels and origins, parameters and loop variables.
use tcl_lsp_nvim.Base.{
  ℕ, ◌+◌, Bool, true, ◌&&◌, ◌||◌, not, List, [], ◌∷◌, ◌++◌, Option, none, some, ◌==◌, leb,
  if◌then◌else◌, Bytes, codes, length, take, flatten, get_elem?, has_prefix, index_of, eql, one_of,
}
use tcl_lsp_nvim.Parser.{Word, Command, parse}
use tcl_lsp_nvim.Syntax.{
  global_ns, is_bare, is_braced, is_static, is_literal_name, is_plain_name, interior, first_byte,
}
use tcl_lsp_nvim.Scripts.{is_dict_loop}

-- A declared name and its range: `paramName`, and the results of `arrayBaseName`.
pub record Target : Type 0 where
  pub name : Bytes
  pub start : ℕ
  pub end : ℕ

abbrev element_target : Word → ℕ → Option Target
element_target w p =
    if not (p == 0) && is_static (take p w.text)
    then some (record { name = take p w.text; start = w.start; end = w.start + p })
    else none

abbrev scalar_target : Word → Option Target
scalar_target w =
    if is_plain_name w then some (record { name = w.text; start = w.start; end = w.end }) else none

unfoldable pub array_base_name : Word → Option Target
unfolding is_static is_literal_name index_of
array_base_name w =
    if not (is_bare w) || length w.text == 0
    then none
    else elim (index_of w.text (codes "(")) [ none ↦ scalar_target w | some p ↦ element_target w p ]

unfoldable pub global_origin : Bytes → Bytes
unfolding has_prefix
global_origin name = if has_prefix name global_ns then name else global_ns ++ name

unfoldable pub upvar_origin : Bytes → Word → Bytes
unfolding array_base_name has_prefix eql
upvar_origin level target = elim (array_base_name target) [
  | none ↦ []
  | some t ↦
      if has_prefix t.name global_ns
      then t.name
      else if eql level (codes "#0")
      then global_ns ++ t.name
      else []
]

unfoldable pub all_digits : Bytes → Bool
all_digits [] = true
all_digits (c ∷ s) = leb b'0' c && leb c b'9' && all_digits s

unfoldable pub is_upvar_level : Word → Bool
unfolding all_digits
is_upvar_level w =
    is_bare w && not (length w.text == 0) && (first_byte w.text b'#' || all_digits w.text)

abbrev target_of : Word → ℕ → Target
target_of w base = record { name = w.text; start = base + w.start; end = base + w.end }

-- The first word of the first command: parsed commands are not empty.
abbrev pub first_word : List Command → ℕ → Option Target
first_word ((w ∷ _) ∷ _) base = some (target_of w base)
first_word _ base = none

unfoldable pub param_from_word : Word → ℕ → Option Target
unfolding parse
param_from_word w base =
    if is_braced w && leb 2 (length w.text)
    then first_word (parse (interior w.text)) (base + w.start + 1)
    else if is_bare w && not (length w.text == 0)
    then some (target_of w base)
    else none

-- A parameter with no name is left out.
abbrev pub add_named : Option Target → List Target → List Target
add_named none ts = ts
add_named (some t) ts = if length t.name == 0 then ts else t ∷ ts

unfoldable pub params_of_words : List Word → ℕ → List Target
unfolding param_from_word
params_of_words [] base = []
params_of_words (w ∷ ws) base = add_named (param_from_word w base) (params_of_words ws base)

unfoldable pub scan_params : Bytes → ℕ → List Target
unfolding params_of_words parse
scan_params text base = params_of_words (flatten (parse text)) base

-- `emitProcParams`, before the names become definitions.
unfoldable pub proc_params : Word → ℕ → List Target
unfolding scan_params
proc_params args base =
    if is_braced args && leb 2 (length args.text)
    then scan_params (interior args.text) (base + args.start + 1)
    else scan_params args.text (base + args.start)

-- `emitVarListNames`, likewise.
unfoldable pub var_list_names : ℕ → Word → List Target
unfolding scan_params
var_list_names base vw =
    if is_braced vw && leb 2 (length vw.text)
    then scan_params (interior vw.text) (base + vw.start + 1)
    else if not (is_bare vw)
    then []
    else scan_params vw.text (base + vw.start)

-- `w[1], w[3], …` up to the word before the last: handed the words behind the head.
unfoldable pub var_lists : List Word → List Word
var_lists (x ∷ y ∷ ws) = x ∷ var_lists ws
var_lists _ = []

-- `w[2:]`. Go panics on one word alone, which `none` stands for.
abbrev pub lassign_targets : Command → Option (List Word)
lassign_targets (_ ∷ _ ∷ ws) = some ws
lassign_targets _ = none

abbrev pub dict_targets : Command → List Word
dict_targets w =
    if leb 5 (length w) && is_dict_loop w
    then elim (get_elem? w 2) [ none ↦ [] | some x ↦ x ∷ [] ]
    else []

-- The words of `emitLoopVarDefs`; `none` is its panic.
unfoldable pub loop_var_words : Command → Option (List Word)
unfolding one_of eql var_lists
loop_var_words [] = some []
loop_var_words (h ∷ ws) =
    if not (is_bare h)
    then some []
    else if one_of h.text (codes "foreach" ∷ codes "lmap" ∷ [])
    then some (var_lists ws)
    else if eql h.text (codes "lassign")
    then lassign_targets (h ∷ ws)
    else if eql h.text (codes "dict")
    then some (dict_targets (h ∷ ws))
    else some []
