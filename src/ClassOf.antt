-- ===== src/ClassOf.antt =====
-- server/internal/tcl/classof.go: the classes that a receiver's variable may hold. Strings that are
-- empty stand for none, as in the source; an outer `none` is a panic of the reaching analysis.
pub mod Fuel
use mathlib.Core.Option
use tcl_lsp_nvim.Base.{
  ℕ, zero, suc, ◌+◌, ◌-◌, Bool, true, false, ◌&&◌, ◌||◌, not, List, [], ◌∷◌, ◌++◌, map, Option,
  none, some, ◌==◌, leb, if◌then◌else◌, Bytes, codes, length, take, drop, get_elem?, has_prefix,
  index_of, see,
}
use tcl_lsp_nvim.Scanner.{balanced_span}
use tcl_lsp_nvim.Parser.{bare, braced, quoted, Word, Command, parse}
use tcl_lsp_nvim.VarRef.{skip_bracket_span, parse_var_ref}
use tcl_lsp_nvim.Syntax.{global_ns, interior, is_bare, is_cmd}
use tcl_lsp_nvim.Bodies.{Body, child_bodies}
use tcl_lsp_nvim.Refs.{bracket_interior}
use tcl_lsp_nvim.Defs.{Definition}
use tcl_lsp_nvim.Nesting.{nested}
use tcl_lsp_nvim.Scope.{Scope, enclosing_scope}
use tcl_lsp_nvim.Reaching.{Script, script_size, body_script, proc_at}
use tcl_lsp_nvim.Reaching.Running.{reaching_at}

-- `strings.Contains(s, sep)`
unfoldable pub contains : Bytes → Bytes → Bool
unfolding index_of
contains s sep = elim (index_of s sep) [ none ↦ false | some i ↦ true ]

-- The text from the first `[` that no `$` reference covers. On fuel; each turn passes a byte at least.
unfoldable pub from_bracket : ℕ → Bytes → Bytes
unfolding parse_var_ref
from_bracket fuel [] = []
from_bracket zero (c ∷ s) = []
from_bracket (suc fuel) (c ∷ s) =
    let behind = from_bracket fuel (drop (parse_var_ref s).1 (c ∷ s)) in
    let onward = from_bracket fuel s in
    if c == b'[' then c ∷ s else if c == b'$' then behind else onward

-- The class that the head of the inner command names.
unfoldable pub head_class : List Command → Bytes
unfolding contains has_prefix
head_class ((h ∷ _) ∷ _) =
    if is_bare h && contains h.text global_ns
    then (if has_prefix h.text global_ns then h.text else global_ns ++ h.text)
    else []
head_class _ = []

unfoldable pub bracket_class : Bytes → Bytes
unfolding head_class parse balanced_span
bracket_class [] = []
bracket_class (c ∷ s) =
    head_class (parse (bracket_interior (take (skip_bracket_span (c ∷ s)) (c ∷ s))))

-- The text of the word, with the quotes off a quoted one.
abbrev pub value_text : Word → Bytes
value_text w = elim w.kind [
  | bare ↦ w.text
  | braced ↦ []
  | quoted ↦ if leb 2 (length w.text) then interior w.text else w.text
]

unfoldable pub extract_instantiation_class : Word → Bytes
unfolding from_bracket bracket_class
extract_instantiation_class w = bracket_class (from_bracket (length (value_text w)) (value_text w))

-- `wanted[nameRange{start, end}]`
unfoldable pub is_wanted : List Definition → ℕ → ℕ → Bool
is_wanted [] start end = false
is_wanted (d ∷ ds) start end = d.name_start == start && d.name_end == end || is_wanted ds start end

-- The class that a command assigns to a wanted name, or nothing.
unfoldable pub assigned_class : List Definition → ℕ → Command → Bytes
unfolding is_cmd is_wanted extract_instantiation_class
assigned_class wanted base (h ∷ name ∷ value ∷ w) =
    if is_cmd (h ∷ name ∷ value ∷ w) (codes "set")
      && is_wanted wanted (base + name.start) (base + name.end)
    then extract_instantiation_class value
    else []
assigned_class wanted base _ = []

unfoldable pub add_class : Bytes → List Bytes → List Bytes
add_class cls classes = if length cls == 0 then classes else see cls classes

abbrev pub Gather : Type 0
Gather = List Bytes → List Bytes

unfoldable pub class_scripts : (Script → Gather) → List Script → Gather
class_scripts rec [] classes = classes
class_scripts rec (p ∷ ps) classes = class_scripts rec ps (rec p classes)

-- `walkCmds`
unfoldable pub class_cmds : List Definition → (Script → Gather) → ℕ → List Command → Gather
unfolding class_scripts assigned_class add_class child_bodies
class_cmds wanted rec base [] classes = classes
class_cmds wanted rec base (c ∷ cmds) classes = class_cmds wanted rec base cmds (
    class_scripts rec (map body_script (child_bodies c base (proc_at base)))
      (add_class (assigned_class wanted base c) classes))

unfoldable pub class_script : List Definition → (Script → Gather) → Script → Gather
unfolding class_cmds parse
class_script wanted rec p = class_cmds wanted rec p.base (parse p.text)

unfoldable pub gather_classes : List Definition → Script → Gather
unfolding class_script nested
gather_classes wanted = nested script_size (λ cs. cs) (class_script wanted)

unfoldable pub classes_in : Option (List Definition) → Option Scope → List Bytes
unfolding gather_classes
classes_in (some (d ∷ ds)) (some sc) =
    gather_classes (d ∷ ds) (record { text = sc.inner; base = sc.base }) []
classes_in _ _ = []

unfoldable pub class_of : Bytes → ℕ → Option (List Bytes)
unfolding reaching_at classes_in enclosing_scope
class_of src offset =
    Option.map (λ defs. classes_in defs (enclosing_scope src offset)) (reaching_at src offset)
