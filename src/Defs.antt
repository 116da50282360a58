-- ===== src/Defs.antt =====
-- server/internal/tcl/defs.go: the definitions that one command declares. `emitDefs` appends to
-- `out`; here each of its blocks is a list, joined in the order of the source. `none` stands for the
-- panic of `emitLoopVarDefs`.
pub mod Total
use mathlib.Core.Option
use tcl_lsp_nvim.Base.{
  ℕ, zero, suc, ◌+◌, ◌-◌, Bool, true, false, ◌&&◌, ◌||◌, not, List, [], ◌∷◌, ◌++◌, map, Option,
  none, some, ◌==◌, leb, ltb, if◌then◌else◌, Bytes, codes, length, take, drop, flatten, get_elem?,
  eql, last_index_of,
}
use tcl_lsp_nvim.Parser.{Word, Command}
use tcl_lsp_nvim.Syntax.{
  FrameKind, Context, in_class, in_proc, in_namespace, is_braced, is_cmd, is_either, qualify_name,
  is_plain_name, last_word, text_at,
}
use tcl_lsp_nvim.Bodies.{member_words, ProcWords, decorated_proc_def}
use tcl_lsp_nvim.Targets.{
  Target, array_base_name, global_origin, upvar_origin, is_upvar_level, proc_params, var_list_names,
  loop_var_words,
}

pub data DefKind : Type 0 where
  def_proc def_namespace_var def_local def_global_link def_class def_method def_ivar : DefKind

pub record Definition : Type 0 where
  pub kind : DefKind
  pub name : Bytes
  pub namespace : Bytes
  pub name_start : ℕ
  pub name_end : ℕ
  pub full_start : ℕ
  pub full_end : ℕ
  pub scope : ℕ
  pub origin : Bytes
  pub class : Bytes

-- A definition whose full range is not set.
abbrev pub local_def : DefKind → Bytes → Context → Target → Definition
local_def k origin cx t = record {
  kind = k;
  name = t.name;
  namespace = cx.ns;
  name_start = t.start;
  name_end = t.end;
  full_start = 0;
  full_end = 0;
  scope = cx.scope;
  origin = origin;
  class = cx.class;
}

abbrev pub cmd_start : Command → ℕ → ℕ
cmd_start [] base = 0
cmd_start (w ∷ _) base = base + w.start

abbrev pub cmd_end : Command → ℕ → ℕ
cmd_end c base = elim (last_word c) [ none ↦ 0 | some w ↦ base + w.end ]

-- A definition with the range of its whole command.
abbrev pub symbol_def : DefKind → Command → ℕ → Context → Target → Definition
symbol_def k c base cx t = record (local_def k [] cx t) {
  full_start = cmd_start c base;
  full_end = cmd_end c base;
}

-- The target that is a word itself, and one at a range inside the parsed text.
abbrev pub name_at : Word → ℕ → Target
name_at w base = record { name = w.text; start = base + w.start; end = base + w.end }

abbrev pub moved : ℕ → Target → Target
moved base t = record t { start = base + t.start; end = base + t.end }

abbrev pub qualified : Context → Target → Target
qualified cx t = record t { name = qualify_name t.name cx.ns }

-- `w[1]`, if it is a plain name.
abbrev pub plain_at_one : Command → Option Word
plain_at_one (_ ∷ n ∷ _) = if is_plain_name n then some n else none
plain_at_one _ = none

abbrev pub one_def : (Word → Definition) → Option Word → List Definition
one_def f none = []
one_def f (some w) = f w ∷ []

abbrev pub target_def : (Target → Definition) → Option Target → List Definition
target_def f none = []
target_def f (some t) = f t ∷ []

-- The members of a class body. A constructor or destructor is named by its keyword.
unfoldable pub member_defs : Command → ℕ → Context → List Definition
unfolding member_words is_cmd
member_defs c base cx =
    let mw = member_words c in
    let named =
      λ (k : DefKind). one_def (λ w. symbol_def k c base cx (name_at w base)) (plain_at_one mw) in
    if is_either mw (codes "constructor") (codes "destructor")
    then one_def (λ w. symbol_def def_method c base cx (name_at w base)) (get_elem? mw 0)
    else if is_either mw (codes "method") (codes "proc")
    then named def_method
    else if is_either mw (codes "variable") (codes "common")
    then named def_ivar
    else []

unfoldable pub proc_defs : Command → ℕ → Context → List Definition
unfolding is_cmd qualify_name
proc_defs c base cx =
    if is_cmd c (codes "proc")
    then one_def (λ w. symbol_def def_proc c base cx (qualified cx (name_at w base)))
        (plain_at_one c)
    else []

unfoldable pub decorated_defs : Command → ℕ → Context → List Definition
unfolding decorated_proc_def qualify_name
decorated_defs c base cx =
    one_def (λ w. symbol_def def_proc c base cx (qualified cx (name_at w base)))
      (Option.map (λ p. p.name) (decorated_proc_def c))

-- `variable NAME`: the namespace's variable, and in a proc a local name for it.
unfoldable pub variable_defs : Command → ℕ → Context → List Definition
unfolding is_cmd qualify_name
variable_defs c base cx =
    if is_cmd c (codes "variable")
    then one_def (λ w. symbol_def def_namespace_var c base cx (qualified cx (name_at w base)))
        (plain_at_one c)
      ++ (if in_proc cx.frame
          then one_def (λ w. local_def def_local [] cx (name_at w base)) (plain_at_one c)
          else [])
    else []

-- The variable that `w[1]` binds, an array element's base included.
abbrev pub base_at_one : Command → Option Target
base_at_one (_ ∷ t ∷ _) = array_base_name t
base_at_one _ = none

unfoldable pub set_defs : Command → ℕ → Context → List Definition
unfolding is_cmd qualify_name array_base_name
set_defs c base cx =
    if is_cmd c (codes "set") && in_namespace cx.frame
    then target_def (λ t. symbol_def def_namespace_var c base cx (qualified cx (moved base t)))
        (base_at_one c)
    else if is_cmd c (codes "set") && in_proc cx.frame
    then target_def (λ t. local_def def_local [] cx (moved base t)) (base_at_one c)
    else []

abbrev pub is_rmw : Command → Bool
is_rmw c = is_cmd c (codes "incr") || is_cmd c (codes "append") || is_cmd c (codes "lappend")

unfoldable pub rmw_defs : Command → ℕ → Context → List Definition
unfolding is_cmd array_base_name
rmw_defs c base cx =
    if in_proc cx.frame && is_rmw c
    then target_def (λ t. local_def def_local [] cx (moved base t)) (base_at_one c)
    else []

unfoldable pub global_links : List Word → ℕ → Context → List Definition
unfolding global_origin
global_links [] base cx = []
global_links (w ∷ ws) base cx =
    let rest = global_links ws base cx in
    if is_plain_name w
    then local_def def_global_link (global_origin w.text) cx (name_at w base) ∷ rest
    else rest

unfoldable pub global_defs : Command → ℕ → Context → List Definition
unfolding is_cmd global_links
global_defs c base cx =
    if is_cmd c (codes "global") && in_proc cx.frame then global_links (drop 1 c) base cx else []

-- The (otherVar, alias) pairs of `upvar`.
unfoldable pub upvar_aliases : Bytes → List Word → ℕ → Context → List Definition
unfolding upvar_origin
upvar_aliases level (other ∷ alias ∷ ws) base cx =
    let rest = upvar_aliases level ws base cx in
    if is_plain_name alias
    then local_def def_local (upvar_origin level other) cx (name_at alias base) ∷ rest
    else rest
upvar_aliases level _ base cx = []

-- The optional level is taken off.
unfoldable pub upvar_args : List Word → ℕ → Context → List Definition
unfolding upvar_aliases is_upvar_level
upvar_args [] base cx = []
upvar_args (a ∷ args) base cx =
    if is_upvar_level a
    then upvar_aliases a.text args base cx
    else upvar_aliases [] (a ∷ args) base cx

unfoldable pub upvar_defs : Command → ℕ → Context → List Definition
unfolding is_cmd upvar_args
upvar_defs c base cx =
    if is_cmd c (codes "upvar") && in_proc cx.frame && leb 3 (length c)
    then upvar_args (drop 1 c) base cx
    else []

unfoldable pub class_defs : Command → ℕ → Context → List Definition
unfolding is_cmd qualify_name
class_defs c base cx =
    if is_either c (codes "itcl::class") (codes "::itcl::class") && leb 3 (length c)
    then one_def (λ w. symbol_def def_class c base cx (qualified cx (name_at w base)))
        (plain_at_one c)
    else []

-- `itcl::body ::C::m`: the name behind the last `::` at `i`, in the class in front of it.
abbrev pub method_def : Command → ℕ → Context → Word → ℕ → List Definition
method_def c base cx w i =
    let segment = drop (i + 2) w.text in
    if ltb 0 i && not (length segment == 0)
    then record (symbol_def def_method c base cx
        (record { name = segment; start = base + (w.start + i + 2); end = base + w.end })) {
          class = qualify_name (take i w.text) cx.ns;
        }
      ∷ []
    else []

unfoldable pub body_defs : Command → ℕ → Context → List Definition
unfolding is_cmd qualify_name last_index_of
body_defs c base cx =
    if is_either c (codes "itcl::body") (codes "::itcl::body")
    then elim (plain_at_one c) [
      | none ↦ []
      | some w ↦ elim (last_index_of w.text (codes "::")) [
        | none ↦ []
        | some i ↦ method_def c base cx w i
      ]
    ]
    else []

-- Local definitions for all names of some words.
abbrev pub local_defs : Context → List Target → List Definition
local_defs cx = map (local_def def_local [] cx)

unfoldable pub loop_var_defs : Command → ℕ → Context → Option (List Definition)
unfolding loop_var_words var_list_names
loop_var_defs c base cx =
    if in_proc cx.frame
    then Option.map (λ ws. local_defs cx (flatten (map (var_list_names base) ws)))
        (loop_var_words c)
    else some []

-- The blocks of `emitDefs` outside a class body, but for the last.
unfoldable pub plain_defs : Command → ℕ → Context → List Definition
unfolding proc_defs decorated_defs variable_defs set_defs rmw_defs global_defs upvar_defs class_defs
    body_defs
plain_defs c base cx =
    proc_defs c base cx
    ++ (decorated_defs c base cx
        ++ (variable_defs c base cx
            ++ (set_defs c base cx
                ++ (rmw_defs c base cx
                    ++ (global_defs c base cx
                        ++ (upvar_defs c base cx
                            ++ (class_defs c base cx ++ body_defs c base cx)))))))

unfoldable pub emit_defs : Command → ℕ → Context → Option (List Definition)
unfolding member_defs plain_defs loop_var_defs
emit_defs c base cx =
    if in_class cx.frame
    then some (member_defs c base cx)
    else Option.map (λ loops. plain_defs c base cx ++ loops) (loop_var_defs c base cx)
