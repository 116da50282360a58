-- ===== src/Reaching/Steps.antt =====
-- server/internal/tcl/reaching.go: what the analyzer does at an `if`, at a command whose bodies are
-- analyzed together, and at a loop. `rec` analyzes a script.
use mathlib.Core.Option
use tcl_lsp_nvim.Base.{
  ℕ, zero, suc, Bool, true, not, List, [], ◌∷◌, ◌++◌, map, Option, some, ◌==◌, if◌then◌else◌,
  length, drop, ◌>>=◌,
}
use tcl_lsp_nvim.Parser.{Command}
use tcl_lsp_nvim.Scripts.{script_bodies, if_bodies}
use tcl_lsp_nvim.ReachSet.{ReachSet, join_sets, join_all, equal_from, reach_equal, local_bindings}
use tcl_lsp_nvim.Reaching.{
  Script, script_of, FrameAcc, Analyzer, Flow, flow, Run, add_bindings, set_bindings_to,
  collect_scripts, collect_bindings, has_else, arm_words,
}

abbrev pub joined : Bool → ReachSet → List ReachSet × Analyzer → Flow
joined has_fall s (outs, a) =
    if has_fall
    then flow (join_all (outs ++ s ∷ [])) true a
    else flow (join_all outs) (not (length outs == 0)) a

abbrev pub top_of : List FrameAcc → FrameAcc
top_of [] = record { brk = []; cont = [] }
top_of (acc ∷ _) = acc

abbrev pub next_head : ReachSet → Flow → ReachSet
next_head cur f =
    join_all (
      cur
      ∷ join_all ((if f.live then f.reach else []) ∷ (top_of f.state.loop_stack).cont ∷ [])
      ∷ [])

abbrev pub max_loop_iters : ℕ
max_loop_iters = 200

abbrev pub push_loop : Analyzer → Analyzer
push_loop a = record a { loop_stack = record { brk = []; cont = [] } ∷ a.loop_stack }

abbrev pub leave_loop : ReachSet × Analyzer → Flow
leave_loop (cur, a) =
    flow (join_all (cur ∷ (top_of a.loop_stack).brk ∷ [])) true
      (record a { loop_stack = drop 1 a.loop_stack })

module _ (rec : Script → Run) where
  -- The branches of an `if`, with the sets of those that end live.
  unfoldable pub run_branches :
      List Script → ReachSet → Analyzer → Option (List ReachSet × Analyzer)
  run_branches [] s a = some ([], a)
  run_branches (p ∷ ps) s a = do
    f ← rec p s a
    (outs, a') ← run_branches ps s f.state
    some ((if f.live then f.reach ∷ outs else outs), a')

  unfoldable pub analyze_if : Command → ℕ → Run
  unfolding run_branches if_bodies has_else join_sets
  analyze_if c base s a =
      Option.map (joined (not (has_else c)) s)
        (run_branches (map (script_of base) (if_bodies c)) s a)

  -- Scripts that are run for the uses in them only.
  unfoldable pub run_apart : List Script → ReachSet → Analyzer → Option Analyzer
  run_apart [] s a = some a
  run_apart (p ∷ ps) s a = rec p s a >>= λ f. run_apart ps s f.state

  unfoldable pub analyze_conservative : Command → ℕ → Run
  unfolding arm_words collect_bindings run_apart local_bindings add_bindings join_sets
  analyze_conservative c base s a = do
    arms ← arm_words c
    gens ← collect_scripts collect_bindings (map (script_of base) arms) []
    let view = join_all (s ∷ gens ∷ [])
    a' ← run_apart (map (script_of base) arms) view a
    ds ← local_bindings c base
    some (flow (add_bindings ds view) true a')

  -- One round of a loop: the bodies in turn, up to one that does not end live.
  unfoldable pub run_bodies : List Script → Run
  run_bodies [] s a = some (flow s true a)
  run_bodies (p ∷ ps) s a = do
    f ← rec p s a
    if f.live then run_bodies ps f.reach f.state else some f

  -- The rounds of `analyzeLoop`: the set at the loop's head, and the state.
  unfoldable pub run_rounds : ℕ → List Script → ReachSet → Analyzer → Option (ReachSet × Analyzer)
  unfolding run_bodies join_sets equal_from
  run_rounds zero ps cur a = some (cur, a)
  run_rounds (suc n) ps cur a = run_bodies ps cur a >>= λ f.
      let merged = next_head cur f in
      let again = run_rounds n ps merged f.state in
      if reach_equal merged cur then some (cur, f.state) else again

  unfoldable pub analyze_loop : Command → ℕ → Run
  unfolding run_rounds set_bindings_to local_bindings script_bodies join_sets
  analyze_loop c base s a = do
    ds ← local_bindings c base
    r ←
        run_rounds max_loop_iters (map (script_of base) (script_bodies c)) (set_bindings_to ds s)
          (push_loop a)
    some (leave_loop r)
