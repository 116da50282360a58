-- ===== src/Reaching.antt =====
-- server/internal/tcl/reaching.go: the analyzer's state, the bindings in a script, and the uses in a
-- command. The stack of loops has its top in front. `none` is a panic, of a bare `switch` or a lone
-- `lassign`.
pub mod Steps
pub mod Running
pub mod Pieces
pub mod Fuel
pub mod Sound
pub mod Answers
pub mod Origins
use mathlib.Core.Option
use tcl_lsp_nvim.Base.{
  ℕ, zero, suc, ◌+◌, Bool, true, false, ◌&&◌, ◌||◌, not, List, [], ◌∷◌, ◌++◌, map, Option, none,
  some, ◌==◌, leb, ltb, if◌then◌else◌, Bytes, codes, length, drop, eql, one_of, get_elem?, ◌>>=◌,
}
use tcl_lsp_nvim.Assoc.{find_or, alter}
use tcl_lsp_nvim.Parser.{Word, Command, parse}
use tcl_lsp_nvim.Syntax.{
  FrameKind, frame_proc, Context, in_proc, is_bare, is_braced, is_cmd, is_word, braced_inner,
  inner_base, global_ns,
}
use tcl_lsp_nvim.Scripts.{is_dict_loop, script_bodies, if_bodies, braced_words}
use tcl_lsp_nvim.Bodies.{Body, child_bodies}
use tcl_lsp_nvim.Refs.{RefKind, ref_variable, Reference, refs_of_command}
use tcl_lsp_nvim.Targets.{proc_params}
use tcl_lsp_nvim.Defs.{Definition, is_rmw, local_defs}
use tcl_lsp_nvim.Nesting.{nested}
use tcl_lsp_nvim.ObjMethod.{is_within}
use tcl_lsp_nvim.Scope.{Scope, enclosing_scope}
use tcl_lsp_nvim.ReachSet.{
  ReachSet, append_dedup, add_binding, join_sets, join_all, reach_equal, loop_context,
  local_bindings,
}

-- A script and its offset.
pub record Script : Type 0 where
  pub text : Bytes
  pub base : ℕ

abbrev pub script_of : ℕ → Word → Script
script_of base w = record { text = braced_inner w; base = inner_base w base }

abbrev pub script_size : Script → ℕ
script_size p = length p.text

abbrev pub body_script : Body → Script
body_script b = record { text = b.inner; base = b.base }

pub record FrameAcc : Type 0 where
  pub brk : ReachSet
  pub cont : ReachSet

pub record Analyzer : Type 0 where
  pub answer : List Definition
  pub found : Bool
  pub loop_stack : List FrameAcc
  pub ret : ReachSet

-- A reaching set, whether the path is live, and the state.
pub record Flow : Type 0 where
  pub reach : ReachSet
  pub live : Bool
  pub state : Analyzer

abbrev pub flow : ReachSet → Bool → Analyzer → Flow
flow s l a = record { reach = s; live = l; state = a }

abbrev pub Run : Type 0
Run = ReachSet → Analyzer → Option Flow

abbrev pub Collect : Type 0
Collect = ReachSet → Option ReachSet

-- `into[d.Name] = appendDedup(into[d.Name], d)` for some bindings.
unfoldable pub add_bindings : List Definition → ReachSet → ReachSet
unfolding append_dedup alter
add_bindings [] s = s
add_bindings (d ∷ ds) s = add_bindings ds (add_binding d.name d s)

-- `out[d.Name] = []Definition{d}` for some bindings.
unfoldable pub set_bindings_to : List Definition → ReachSet → ReachSet
unfolding alter
set_bindings_to [] s = s
set_bindings_to (d ∷ ds) s = set_bindings_to ds (alter [] d.name (λ _. d ∷ []) s)

-- The context in which `collectBindings` asks for bodies.
abbrev pub proc_at : ℕ → Context
proc_at base = record { ns = global_ns; frame = frame_proc; scope = base; class = [] }

unfoldable pub collect_scripts : (Script → Collect) → List Script → Collect
collect_scripts rec [] s = some s
collect_scripts rec (p ∷ ps) s = rec p s >>= collect_scripts rec ps

unfoldable pub collect_cmds : (Script → Collect) → ℕ → List Command → Collect
unfolding collect_scripts local_bindings add_bindings child_bodies
collect_cmds rec base [] s = some s
collect_cmds rec base (c ∷ cmds) s = do
  ds ← local_bindings c base
  s' ←
      collect_scripts rec (map body_script (child_bodies c base (proc_at base))) (add_bindings ds s)
  collect_cmds rec base cmds s'

unfoldable pub collect_script : (Script → Collect) → Script → Collect
unfolding collect_cmds parse
collect_script rec p = collect_cmds rec p.base (parse p.text)

unfoldable pub collect_bindings : Script → Collect
unfolding collect_script nested
collect_bindings = nested script_size some collect_script

-- The loop of `recordUses` over the references of a command.
abbrev pub is_used_at : ℕ → ℕ → Reference → Bool
is_used_at offset base r = elim r.kind [
  | ref_variable ↦ is_within offset (r.start + base) (r.end + base)
  | _ ↦ false
]

unfoldable pub used_name : ℕ → ℕ → List Reference → Option Bytes
used_name offset base [] = none
used_name offset base (r ∷ rs) =
    if is_used_at offset base r then some r.name else used_name offset base rs

-- `a.answer = in[name]; a.found = true`
abbrev pub answer_with : Bytes → ReachSet → Analyzer → Analyzer
answer_with name s a = record a { answer = find_or [] name s; found = true }

abbrev pub answer_if : Option Bytes → ReachSet → Analyzer → Analyzer
answer_if none s a = a
answer_if (some name) s a = answer_with name s a

unfoldable pub record_uses : ℕ → Command → ℕ → ReachSet → Analyzer → Analyzer
unfolding used_name refs_of_command find_or
record_uses offset c base s a =
    if a.found then a else answer_if (used_name offset base (refs_of_command c)) s a

-- The use of a variable by the command that rewrites it: the last of its bindings at the offset.
unfoldable pub record_rmw : ℕ → List Definition → ReachSet → Analyzer → Analyzer
unfolding find_or
record_rmw offset [] s a = a
record_rmw offset (d ∷ ds) s a =
    record_rmw offset ds s
      (if is_within offset d.name_start d.name_end then answer_with d.name s a else a)

unfoldable pub loop_head : Command → Bool
unfolding one_of eql
loop_head [] = false
loop_head (h ∷ w) =
    is_bare h
    && (one_of h.text (codes "while" ∷ codes "for" ∷ codes "foreach" ∷ codes "lmap" ∷ [])
        || eql h.text (codes "dict") && is_dict_loop (h ∷ w))

abbrev pub conservative_head : Command → Bool
conservative_head c =
    is_cmd c (codes "catch") || is_cmd c (codes "try") || is_cmd c (codes "switch")

unfoldable pub has_else : List Word → Bool
unfolding eql
has_else [] = false
has_else (x ∷ w) = is_word (codes "else") x || has_else w

-- `c.Words[2:]`, which panics on one word or none.
abbrev words_from_two : Command → Option (List Word)
words_from_two (_ ∷ _ ∷ w) = some w
words_from_two _ = none

-- The scripts that `analyzeConservative` visits: the bodies, and each braced word of a `switch`.
unfoldable pub arm_words : Command → Option (List Word)
unfolding is_cmd script_bodies braced_words
arm_words c =
    if is_cmd c (codes "switch")
    then Option.map (λ w. script_bodies c ++ braced_words w) (words_from_two c)
    else some (script_bodies c)
