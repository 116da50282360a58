-- ===== src/Reaching/Sound.antt =====
-- What the analyzer keeps: a property of bindings that the commands of the source establish holds of
-- each binding in its sets, and of those that it answers.
use tcl_lsp_nvim.Base.{
  ℕ, zero, suc, Bool, true, false, List, [], ◌∷◌, ◌++◌, Option, none, some, Bytes, drop, All,
  All-append, if_cases, IfSome, >>=-IfSome,
}
use tcl_lsp_nvim.Assoc.{find_or}
use tcl_lsp_nvim.Parser.{Command}
use tcl_lsp_nvim.Refs.{refs_of_command}
use tcl_lsp_nvim.Defs.{Definition}
use tcl_lsp_nvim.ObjMethod.{is_within}
use tcl_lsp_nvim.ReachSet.{ReachSet, add_binding, reach_equal}
use tcl_lsp_nvim.ReachSet.Joins.{
  IsKeyed, find_or-IsKeyed, alter-IsKeyed, add_binding-IsKeyed, join_all-IsKeyed, join_two-IsKeyed,
}
use tcl_lsp_nvim.Reaching.{
  Script, FrameAcc, Analyzer, Flow, Run, add_bindings, set_bindings_to, used_name, answer_with,
  answer_if, record_uses, record_rmw,
}
use tcl_lsp_nvim.Reaching.Steps.{
  run_branches, joined, run_apart, run_bodies, top_of, next_head, run_rounds,
}

module _ (Q : Bytes → Definition → Type 0) where
  pub add_bindings-IsKeyed :
      (ds : List Definition) (s : ReachSet)
      → All (λ d. Q d.name d) ds
      → IsKeyed Q s
      → IsKeyed Q (add_bindings ds s)
  unfolding add_bindings
  add_bindings-IsKeyed [] s q h = h
  add_bindings-IsKeyed (d ∷ ds) s (q, qs) h =
      add_bindings-IsKeyed ds (add_binding d.name d s) qs (add_binding-IsKeyed Q d.name d s q h)

  pub set_bindings_to-IsKeyed :
      (ds : List Definition) (s : ReachSet)
      → All (λ d. Q d.name d) ds
      → IsKeyed Q s
      → IsKeyed Q (set_bindings_to ds s)
  unfolding set_bindings_to
  set_bindings_to-IsKeyed [] s q h = h
  set_bindings_to-IsKeyed (d ∷ ds) s (q, qs) h =
      set_bindings_to-IsKeyed ds _ qs (alter-IsKeyed Q d.name (λ _. d ∷ []) s (λ _ _. (q, tt)) h)

  -- The state: what is answered is of one name.
  abbrev pub AccKeyed : FrameAcc → Type 0
  AccKeyed acc = IsKeyed Q acc.brk × IsKeyed Q acc.cont

  abbrev pub IsSound : Analyzer → Type 0
  IsSound a = ((name : Bytes) × All (Q name) a.answer) × All AccKeyed a.loop_stack × IsKeyed Q a.ret

  abbrev pub FlowSound : Flow → Type 0
  FlowSound f = IsKeyed Q f.reach × IsSound f.state

  pub answer_with-IsSound :
      (name : Bytes) (s : ReachSet) (a : Analyzer)
      → IsKeyed Q s
      → IsSound a
      → IsSound (answer_with name s a)
  unfolding find_or
  answer_with-IsSound name s a k (_, l, r) = ((name, find_or-IsKeyed Q name s k), l, r)

  pub record_uses-IsSound :
      (offset : ℕ) (c : Command) (base : ℕ) (s : ReachSet) (a : Analyzer)
      → IsKeyed Q s
      → IsSound a
      → IsSound (record_uses offset c base s a)
  unfolding record_uses
  record_uses-IsSound offset c base s a k h =
      if_cases IsSound a.found _ _ (λ _. h) λ _. by_name (used_name offset base (refs_of_command c))
    where
      by_name : (o : Option Bytes) → IsSound (answer_if o s a)
      by_name none = h
      by_name (some name) = answer_with-IsSound name s a k h

  pub record_rmw-IsSound :
      (offset : ℕ) (ds : List Definition) (s : ReachSet) (a : Analyzer)
      → IsKeyed Q s
      → IsSound a
      → IsSound (record_rmw offset ds s a)
  unfolding record_rmw
  record_rmw-IsSound offset [] s a k h = h
  record_rmw-IsSound offset (d ∷ ds) s a k h = record_rmw-IsSound offset ds s _ k (
      if_cases IsSound (is_within offset d.name_start d.name_end) _ _
        (λ _. answer_with-IsSound d.name s a k h) λ _. h)

  pub top_of-AccKeyed : (stack : List FrameAcc) → All AccKeyed stack → AccKeyed (top_of stack)
  top_of-AccKeyed [] h = (tt, tt)
  top_of-AccKeyed (acc ∷ stack) h = h.0

  pub drop-AccKeyed : (stack : List FrameAcc) → All AccKeyed stack → All AccKeyed (drop 1 stack)
  drop-AccKeyed [] h = tt
  drop-AccKeyed (acc ∷ stack) h = h.1

  pub joined-FlowSound :
      (has_fall : Bool) (s : ReachSet) (r : List ReachSet × Analyzer)
      → IsKeyed Q s
      → All (IsKeyed Q) r.0 × IsSound r.1
      → FlowSound (joined has_fall s r)
  joined-FlowSound true s (outs, a) k (h, g) =
      (join_all-IsKeyed Q (outs ++ s ∷ []) (All-append (IsKeyed Q) outs (s ∷ []) h (k, tt)), g)
  joined-FlowSound false s (outs, a) k (h, g) = (join_all-IsKeyed Q outs h, g)

  -- A script, analyzed by `rec`.
  abbrev pub RunSound : (Script → Run) → Script → Type 0
  RunSound rec p =
      (s : ReachSet) (a : Analyzer) → IsKeyed Q s → IsSound a → IfSome FlowSound (rec p s a)

  pub run_branches-IfSome :
      (rec : Script → Run) (ps : List Script) (s : ReachSet) (a : Analyzer)
      → All (RunSound rec) ps
      → IsKeyed Q s
      → IsSound a
      → IfSome (λ r. All (IsKeyed Q) r.0 × IsSound r.1) (run_branches rec ps s a)
  unfolding run_branches
  run_branches-IfSome rec [] s a h k g = (tt, g)
  run_branches-IfSome rec (p ∷ ps) s a (h, hs) k g =
      >>=-IfSome FlowSound _ (rec p s a) _ (h s a k g) λ f (fk, fg).
        >>=-IfSome _ _ (run_branches rec ps s f.state) _
          (run_branches-IfSome rec ps s f.state hs k fg)
          λ (outs, b) (ok, bg).
            (if_cases (All (IsKeyed Q)) f.live (f.reach ∷ outs) outs (λ _. (fk, ok)) λ _. ok, bg)

  pub run_apart-IfSome :
      (rec : Script → Run) (ps : List Script) (s : ReachSet) (a : Analyzer)
      → All (RunSound rec) ps
      → IsKeyed Q s
      → IsSound a
      → IfSome IsSound (run_apart rec ps s a)
  unfolding run_apart
  run_apart-IfSome rec [] s a h k g = g
  run_apart-IfSome rec (p ∷ ps) s a (h, hs) k g =
      >>=-IfSome FlowSound IsSound (rec p s a) _ (h s a k g)
        λ f (_, fg). run_apart-IfSome rec ps s f.state hs k fg

  pub run_bodies-IfSome :
      (rec : Script → Run) (ps : List Script) (s : ReachSet) (a : Analyzer)
      → All (RunSound rec) ps
      → IsKeyed Q s
      → IsSound a
      → IfSome FlowSound (run_bodies rec ps s a)
  unfolding run_bodies
  run_bodies-IfSome rec [] s a h k g = (k, g)
  run_bodies-IfSome rec (p ∷ ps) s a (h, hs) k g =
      >>=-IfSome FlowSound FlowSound (rec p s a) _ (h s a k g) λ f (fk, fg).
        if_cases (IfSome FlowSound) f.live _ _
          (λ _. run_bodies-IfSome rec ps f.reach f.state hs fk fg) λ _. (fk, fg)

  next_head-IsKeyed :
      (cur : ReachSet) (f : Flow) → IsKeyed Q cur → FlowSound f → IsKeyed Q (next_head cur f)
  next_head-IsKeyed cur f k (fk, (_, l, _)) = join_two-IsKeyed Q cur _ k (
      join_two-IsKeyed Q _ _ (if_cases (IsKeyed Q) f.live f.reach [] (λ _. fk) λ _. tt)
        (top_of-AccKeyed _ l).1)

  pub run_rounds-IfSome :
      (rec : Script → Run) (rounds : ℕ) (ps : List Script) (s : ReachSet) (a : Analyzer)
      → All (RunSound rec) ps
      → IsKeyed Q s
      → IsSound a
      → IfSome (λ r. IsKeyed Q r.0 × IsSound r.1) (run_rounds rec rounds ps s a)
  unfolding run_rounds
  run_rounds-IfSome rec zero ps s a h k g = (k, g)
  run_rounds-IfSome rec (suc rounds) ps s a h k g =
      >>=-IfSome FlowSound _ (run_bodies rec ps s a) _ (run_bodies-IfSome rec ps s a h k g)
        λ f (fk, fg).
          if_cases (IfSome (λ r. IsKeyed Q r.0 × IsSound r.1)) (reach_equal (next_head s f) s) _ _
            (λ _. (k, fg))
            λ _. run_rounds-IfSome rec rounds ps _ f.state h (next_head-IsKeyed s f k (fk, fg)) fg
