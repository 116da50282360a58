-- ===== src/Reaching/Running.antt =====
-- server/internal/tcl/reaching.go: the analyzer's dispatch, a script, and `ReachingAt`.
use mathlib.Core.Option
use tcl_lsp_nvim.Base.{
  ℕ, true, false, ◌&&◌, not, List, [], ◌∷◌, Option, none, some, ltb, if◌then◌else◌, Bytes, codes,
  length, ◌>>=◌,
}
use tcl_lsp_nvim.Parser.{Command, parse}
use tcl_lsp_nvim.Syntax.{in_proc, is_cmd}
use tcl_lsp_nvim.Targets.{proc_params}
use tcl_lsp_nvim.Defs.{Definition, is_rmw, local_defs}
use tcl_lsp_nvim.Nesting.{nested}
use tcl_lsp_nvim.Scope.{Scope, enclosing_scope}
use tcl_lsp_nvim.ReachSet.{ReachSet, join_sets, join_all, loop_context, local_bindings}
use tcl_lsp_nvim.Reaching.{
  Script, script_size, FrameAcc, Analyzer, flow, Run, set_bindings_to, record_uses, record_rmw,
  loop_head, conservative_head,
}
use tcl_lsp_nvim.Reaching.Steps.{analyze_if, analyze_conservative, analyze_loop}

-- `break` and `continue` add to the innermost loop, if there is one.
abbrev pub add_break : ReachSet → List FrameAcc → List FrameAcc
add_break s [] = []
add_break s (acc ∷ stack) = record acc { brk = join_all (acc.brk ∷ s ∷ []) } ∷ stack

abbrev pub add_continue : ReachSet → List FrameAcc → List FrameAcc
add_continue s [] = []
add_continue s (acc ∷ stack) = record acc { cont = join_all (acc.cont ∷ s ∷ []) } ∷ stack

module _ (offset : ℕ) (rec : Script → Run) where
  abbrev pub rmw_use : Command → List Definition → ReachSet → Analyzer → Analyzer
  rmw_use c ds s a = if is_rmw c && not a.found then record_rmw offset ds s a else a

  unfoldable pub analyze_plain : Command → ℕ → Run
  unfolding record_rmw local_bindings set_bindings_to is_cmd
  analyze_plain c base s a =
      Option.map (λ ds. flow (set_bindings_to ds s) true (rmw_use c ds s a)) (local_bindings c base)

  -- The switch of `command`.
  unfoldable pub dispatch : Command → ℕ → Run
  unfolding is_cmd analyze_if analyze_conservative analyze_loop loop_head analyze_plain join_sets
  dispatch c base s a =
      if is_cmd c (codes "if")
      then analyze_if rec c base s a
      else if conservative_head c
      then analyze_conservative rec c base s a
      else if loop_head c
      then analyze_loop rec c base s a
      else if is_cmd c (codes "return")
      then some (flow s false (record a { ret = join_all (a.ret ∷ s ∷ []) }))
      else if is_cmd c (codes "break")
      then some (flow s false (record a { loop_stack = add_break s a.loop_stack }))
      else if is_cmd c (codes "continue")
      then some (flow s false (record a { loop_stack = add_continue s a.loop_stack }))
      else analyze_plain c base s a

  unfoldable pub run_command : Command → ℕ → Run
  unfolding dispatch record_uses
  run_command c base s a = dispatch c base s (record_uses offset c base s a)

  unfoldable pub run_seq : ℕ → List Command → Run
  unfolding run_command
  run_seq base [] s a = some (flow s true a)
  run_seq base (c ∷ cmds) s a = do
    f ← run_command c base s a
    if f.live then run_seq base cmds f.reach f.state else some f

  unfoldable pub run_script : Script → Run
  unfolding run_seq parse
  run_script p = run_seq p.base (parse p.text)

-- Never seen: the fuel is enough.
abbrev pub stopped : Run
stopped s a = some (flow s true a)

unfoldable pub run : ℕ → Script → Run
unfolding run_script nested
run offset = nested script_size stopped (run_script offset)

-- The parameters of the proc, each reaching alone.
abbrev pub entry_of : Scope → ReachSet
entry_of sc =
    if in_proc sc.frame
    then set_bindings_to
        (local_defs (record loop_context { scope = sc.base }) (proc_params sc.args sc.args_base)) []
    else []

abbrev pub fresh : Analyzer
fresh = record { answer = []; found = false; loop_stack = []; ret = [] }

abbrev pub max_reaching_bytes : ℕ
max_reaching_bytes = 200000

abbrev pub answer_of : Analyzer → Option (List Definition)
answer_of a = if a.found then some a.answer else none

unfoldable pub reaching_in : ℕ → Option Scope → Option (Option (List Definition))
unfolding run proc_params set_bindings_to
reaching_in offset none = some none
reaching_in offset (some sc) =
    if ltb max_reaching_bytes (length sc.inner)
    then some none
    else Option.map (λ f. answer_of f.state)
        (run offset (record { text = sc.inner; base = sc.base }) (entry_of sc) fresh)

-- `ReachingAt`: `none` is a panic, and `some none` is `ok == false`.
unfoldable pub reaching_at : Bytes → ℕ → Option (Option (List Definition))
unfolding reaching_in enclosing_scope
reaching_at src offset = reaching_in offset (enclosing_scope src offset)
