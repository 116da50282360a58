-- ===== src/Reaching/Answers.antt =====
-- Where the bindings that the analyzer answers come from.
use tcl_lsp_nvim.Base.{
  ℕ, zero, suc, ◌&&◌, not, true, List, [], ◌∷◌, map, Option, none, some, Bytes, codes, All,
  All-mono, if_cases, ◌>>=◌, IfSome, >>=-IfSome, map-IfSome,
}
use tcl_lsp_nvim.Parser.{Word, Command, parse}
use tcl_lsp_nvim.Syntax.{is_cmd}
use tcl_lsp_nvim.Scripts.{if_bodies, script_bodies}
use tcl_lsp_nvim.Bodies.{child_bodies}
use tcl_lsp_nvim.Defs.{Definition, is_rmw}
use tcl_lsp_nvim.Walk.Scripts.{IsMet, parse-IsMet}
use tcl_lsp_nvim.Nesting.{nest}
use tcl_lsp_nvim.ReachSet.{ReachSet, join_all, local_bindings}
use tcl_lsp_nvim.ReachSet.Joins.{IsKeyed, join_two-IsKeyed}
use tcl_lsp_nvim.Reaching.{
  Script, script_of, script_size, body_script, FrameAcc, Analyzer, flow, Run, Collect, add_bindings,
  proc_at, collect_scripts, collect_cmds, collect_script, collect_bindings, record_uses, loop_head,
  conservative_head, has_else, arm_words,
}
use tcl_lsp_nvim.Reaching.Steps.{
  run_branches, analyze_if, run_apart, analyze_conservative, run_rounds, max_loop_iters, push_loop,
  analyze_loop,
}
use tcl_lsp_nvim.Reaching.Running.{
  add_break, add_continue, analyze_plain, dispatch, run_command, run_seq, run_script, stopped, run,
}
use tcl_lsp_nvim.Reaching.Pieces.{
  IsRun, child_scripts-IsRun, if_scripts-IsRun, body_scripts-IsRun, RunArms, arm_words-RunArms,
}
use tcl_lsp_nvim.Reaching.Sound.{
  add_bindings-IsKeyed, set_bindings_to-IsKeyed, IsSound, FlowSound, AccKeyed, record_uses-IsSound,
  record_rmw-IsSound, drop-AccKeyed, top_of-AccKeyed, joined-FlowSound, RunSound,
  run_branches-IfSome, run_apart-IfSome, run_rounds-IfSome,
}

module _ (Q : Bytes → Definition → Type 0) (src : Bytes)
    (made : (c : Command) (base : ℕ)
      → IsMet src c base
      → IfSome (All (λ d. Q d.name d)) (local_bindings c base)) where
  abbrev CollectKeyed : (Script → Collect) → Script → Type 0
  CollectKeyed rec p = (s : ReachSet) → IsKeyed Q s → IfSome (IsKeyed Q) (rec p s)

  collect_scripts-IfSome :
      (rec : Script → Collect) (ps : List Script) (s : ReachSet)
      → All (CollectKeyed rec) ps
      → IsKeyed Q s
      → IfSome (IsKeyed Q) (collect_scripts rec ps s)
  unfolding collect_scripts
  collect_scripts-IfSome rec [] s h k = k
  collect_scripts-IfSome rec (p ∷ ps) s (h, hs) k =
      >>=-IfSome (IsKeyed Q) (IsKeyed Q) (rec p s) _ (h s k) λ t. collect_scripts-IfSome rec ps t hs

  collect_cmds-IfSome :
      (rec : Script → Collect) (base : ℕ) (cmds : List Command) (s : ReachSet)
      → ((p : Script) → IsRun src p → CollectKeyed rec p)
      → All (λ c. IsMet src c base) cmds
      → IsKeyed Q s
      → IfSome (IsKeyed Q) (collect_cmds rec base cmds s)
  unfolding collect_cmds
  collect_cmds-IfSome rec base [] s r h k = k
  collect_cmds-IfSome rec base (c ∷ cmds) s r (met, hs) k =
      >>=-IfSome _ (IsKeyed Q) (local_bindings c base) _ (made c base met) λ ds q.
        >>=-IfSome (IsKeyed Q) (IsKeyed Q)
          (collect_scripts rec (map body_script (child_bodies c base (proc_at base)))
            (add_bindings ds s))
          _
          (collect_scripts-IfSome rec _ _
            (All-mono (IsRun src) (CollectKeyed rec) _ r (child_scripts-IsRun src base c met))
            (add_bindings-IsKeyed Q ds s q k))
          λ t. collect_cmds-IfSome rec base cmds t r hs

  collect-CollectKeyed :
      (fuel : ℕ) (p : Script)
      → IsRun src p
      → CollectKeyed (nest script_size some collect_script fuel) p
  unfolding nest collect_script
  collect-CollectKeyed zero p l s k = k
  collect-CollectKeyed (suc fuel) p l s k =
      collect_cmds-IfSome (nest script_size some collect_script fuel) p.base (parse p.text) s
        (collect-CollectKeyed fuel) (parse-IsMet src p.base p.text l) k

  module _ (offset : ℕ) (rec : Script → Run) (base : ℕ) (c : Command)
      (r : (p : Script) → IsRun src p → RunSound Q rec p) (met : IsMet src c base) (s : ReachSet)
      (a : Analyzer) (k : IsKeyed Q s) (g : IsSound Q a) where
    analyze_if-IfSome : IfSome (FlowSound Q) (analyze_if rec c base s a)
    unfolding analyze_if
    analyze_if-IfSome =
        map-IfSome _ (FlowSound Q) (run_branches rec (map (script_of base) (if_bodies c)) s a) _
          (run_branches-IfSome Q rec _ s a
            (All-mono (IsRun src) (RunSound Q rec) _ r (if_scripts-IsRun src base c met)) k g)
          λ b. joined-FlowSound Q (not (has_else c)) s b k

    analyze_loop-IfSome : IfSome (FlowSound Q) (analyze_loop rec c base s a)
    unfolding analyze_loop
    analyze_loop-IfSome =
        >>=-IfSome _ (FlowSound Q) (local_bindings c base) _ (made c base met) λ ds q.
          >>=-IfSome _ (FlowSound Q)
            (run_rounds rec max_loop_iters (map (script_of base) (script_bodies c)) _ (push_loop a))
            _
            (run_rounds-IfSome Q rec max_loop_iters _ _ (push_loop a)
              (All-mono (IsRun src) (RunSound Q rec) _ r (body_scripts-IsRun src base c met))
              (set_bindings_to-IsKeyed Q ds s q k) (g.0, ((tt, tt), g.1), g.2))
            λ (cur, b) (ck, (an, st, rt)). (
              join_two-IsKeyed Q cur _ ck (top_of-AccKeyed Q b.loop_stack st).0,
              (an, drop-AccKeyed Q b.loop_stack st, rt),
            )

    analyze_plain-IfSome : IfSome (FlowSound Q) (analyze_plain offset rec c base s a)
    unfolding analyze_plain
    analyze_plain-IfSome =
        map-IfSome _ (FlowSound Q) (local_bindings c base) _ (made c base met) λ ds q. (
          set_bindings_to-IsKeyed Q ds s q k,
          if_cases (IsSound Q) (is_rmw c && not a.found) _ _
              (λ _. record_rmw-IsSound Q offset ds s a k g) λ _. g,
        )

    Arms-IfSome :
        (o : Option (List Word))
        → RunArms src base c met o
        → IfSome (FlowSound Q) (
            o >>= λ arms.
            collect_scripts collect_bindings (map (script_of base) arms) [] >>= λ gens.
            run_apart rec (map (script_of base) arms) (join_all (s ∷ gens ∷ [])) a >>= λ a'.
            local_bindings c base >>= λ ds.
            some (flow (add_bindings ds (join_all (s ∷ gens ∷ []))) true a'))
    unfolding collect_bindings
    Arms-IfSome none p = tt
    Arms-IfSome (some arms) p =
        >>=-IfSome (IsKeyed Q) (FlowSound Q)
          (collect_scripts collect_bindings (map (script_of base) arms) []) _
          (collect_scripts-IfSome collect_bindings (map (script_of base) arms) []
            (All-mono (IsRun src) (CollectKeyed collect_bindings) _
              (λ q. collect-CollectKeyed (suc (script_size q)) q) p)
            tt)
          λ gens gk.
            let view = join_two-IsKeyed Q s gens k gk in
            >>=-IfSome (IsSound Q) (FlowSound Q) (run_apart rec (map (script_of base) arms) _ a) _
              (run_apart-IfSome Q rec _ _ a (All-mono (IsRun src) (RunSound Q rec) _ r p) view g)
              λ b bg.
                >>=-IfSome _ (FlowSound Q) (local_bindings c base) _ (made c base met)
                  λ ds q. (add_bindings-IsKeyed Q ds _ q view, bg)

    analyze_conservative-IfSome : IfSome (FlowSound Q) (analyze_conservative rec c base s a)
    unfolding analyze_conservative
    analyze_conservative-IfSome = Arms-IfSome (arm_words c) (arm_words-RunArms src base c met)

    add_break-AccKeyed :
        (stack : List FrameAcc) → All (AccKeyed Q) stack → All (AccKeyed Q) (add_break s stack)
    add_break-AccKeyed [] st = tt
    add_break-AccKeyed (acc ∷ stack) ((b, t), st) = ((join_two-IsKeyed Q acc.brk s b k, t), st)

    add_continue-AccKeyed :
        (stack : List FrameAcc) → All (AccKeyed Q) stack → All (AccKeyed Q) (add_continue s stack)
    add_continue-AccKeyed [] st = tt
    add_continue-AccKeyed (acc ∷ stack) ((b, t), st) = ((b, join_two-IsKeyed Q acc.cont s t k), st)

    dispatch-IfSome : IfSome (FlowSound Q) (dispatch offset rec c base s a)
    unfolding dispatch
    dispatch-IfSome =
        if_cases (IfSome (FlowSound Q)) (is_cmd c (codes "if")) _ _ (λ _. analyze_if-IfSome)
          λ _.
            if_cases (IfSome (FlowSound Q)) (conservative_head c) _ _
              (λ _. analyze_conservative-IfSome)
              λ _.
                if_cases (IfSome (FlowSound Q)) (loop_head c) _ _ (λ _. analyze_loop-IfSome)
                  λ _.
                    if_cases (IfSome (FlowSound Q)) (is_cmd c (codes "return")) _ _
                      (λ _. (k, (g.0, g.1, join_two-IsKeyed Q a.ret s g.2 k)))
                      λ _.
                        if_cases (IfSome (FlowSound Q)) (is_cmd c (codes "break")) _ _
                          (λ _. (k, (g.0, add_break-AccKeyed a.loop_stack g.1, g.2)))
                          λ _.
                            if_cases (IfSome (FlowSound Q)) (is_cmd c (codes "continue")) _ _
                              (λ _. (k, (g.0, add_continue-AccKeyed a.loop_stack g.1, g.2)))
                              λ _. analyze_plain-IfSome

  run_seq-IfSome :
      (offset : ℕ) (rec : Script → Run) (base : ℕ) (cmds : List Command) (s : ReachSet)
      (a : Analyzer)
      → ((p : Script) → IsRun src p → RunSound Q rec p)
      → All (λ c. IsMet src c base) cmds
      → IsKeyed Q s
      → IsSound Q a
      → IfSome (FlowSound Q) (run_seq offset rec base cmds s a)
  unfolding run_seq run_command
  run_seq-IfSome offset rec base [] s a r h k g = (k, g)
  run_seq-IfSome offset rec base (c ∷ cmds) s a r (met, hs) k g =
      >>=-IfSome (FlowSound Q) (FlowSound Q)
        (dispatch offset rec c base s (record_uses offset c base s a)) _
        (dispatch-IfSome offset rec base c r met s _ k
          (record_uses-IsSound Q offset c base s a k g))
        λ f (fk, fg).
          if_cases (IfSome (FlowSound Q)) f.live _ _
            (λ _. run_seq-IfSome offset rec base cmds f.reach f.state r hs fk fg) λ _. (fk, fg)

  nest-RunSound :
      (offset fuel : ℕ) (p : Script)
      → IsRun src p
      → RunSound Q (nest script_size stopped (run_script offset) fuel) p
  unfolding nest run_script
  nest-RunSound offset zero p l s a k g = (k, g)
  nest-RunSound offset (suc fuel) p l s a k g =
      run_seq-IfSome offset (nest script_size stopped (run_script offset) fuel) p.base
        (parse p.text) s a (nest-RunSound offset fuel) (parse-IsMet src p.base p.text l) k g

  pub run-RunSound : (offset : ℕ) (p : Script) → IsRun src p → RunSound Q (run offset) p
  unfolding run
  run-RunSound offset p = nest-RunSound offset (suc (script_size p)) p
