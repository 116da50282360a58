-- ===== src/Reaching/Fuel.antt =====
-- The fuel of the analyzer and of `collectBindings` is enough: each satisfies its own recursion.
use mathlib.Core.Option
use mathlib.Core.Path.{ap₂, fun_ext}
use tcl_lsp_nvim.Base.{
  ℕ, zero, suc, true, not, List, [], ◌∷◌, map, ◌≡◌, refl, ap, Option, none, some, if◌then◌else◌,
  Bytes, codes, length, All, ◌>>=◌,
}
use tcl_lsp_nvim.Parser.{Word, Command, parse}
use tcl_lsp_nvim.Parser.Words.{IsWordOf, parse-IsWordOf}
use tcl_lsp_nvim.Syntax.{is_cmd}
use tcl_lsp_nvim.Scripts.{if_bodies, script_bodies}
use tcl_lsp_nvim.Nesting.{nested_lem}
use tcl_lsp_nvim.ReachSet.{ReachSet, join_all, reach_equal, local_bindings}
use tcl_lsp_nvim.Reaching.{
  Script, script_of, script_size, Analyzer, Run, Collect, flow, add_bindings, collect_scripts,
  collect_cmds, collect_script, collect_bindings, record_uses, conservative_head, loop_head,
  has_else, arm_words,
}
use tcl_lsp_nvim.Reaching.Steps.{
  run_branches, joined, analyze_if, run_apart, analyze_conservative, run_bodies, next_head,
  run_rounds, max_loop_iters, push_loop, analyze_loop,
}
use tcl_lsp_nvim.Reaching.Running.{dispatch, run_command, run_seq, run_script, stopped, run}
use tcl_lsp_nvim.Reaching.Pieces.{
  IsBelow, words-IsBelow, child_scripts-IsBelow, if_scripts-All, body_scripts-All, Arms,
  arm_words-Arms,
}

>>=-eq {ℓ κ} :
    {A : Type ℓ} {B : Type κ} {m m' : Option A} {f g : A → Option B}
    → m ≡ m'
    → ((a : A) → f a ≡ g a)
    → (m >>= f) ≡ (m' >>= g)
>>=-eq p h = ap₂ ◌>>=◌ p (fun_ext h)

module _ (text : Bytes) (rec rec' : Script → Collect)
    (agree : (p : Script) → IsBelow (length text) p → rec p ≡ rec' p) where
  collect_scripts-Agree :
      (ps : List Script) (s : ReachSet)
      → All (IsBelow (length text)) ps
      → collect_scripts rec ps s ≡ collect_scripts rec' ps s
  unfolding collect_scripts
  collect_scripts-Agree [] s h = refl
  collect_scripts-Agree (p ∷ ps) s (h, hs) =
      >>=-eq (ap (λ f. f s) (agree p h)) λ t. collect_scripts-Agree ps t hs

  collect_cmds-Agree :
      (base : ℕ) (cmds : List Command) (s : ReachSet)
      → All (All (IsWordOf text)) cmds
      → collect_cmds rec base cmds s ≡ collect_cmds rec' base cmds s
  unfolding collect_cmds
  collect_cmds-Agree base [] s h = refl
  collect_cmds-Agree base (c ∷ cmds) s (h, hs) = >>=-eq refl λ ds.
      >>=-eq (collect_scripts-Agree _ _ (child_scripts-IsBelow text base c h))
        λ t. collect_cmds-Agree base cmds t hs

-- `collect_bindings` is the recursion of `collectBindings` with no fuel in it.
pub collect_bindings_lem : (p : Script) → collect_bindings p ≡ collect_script collect_bindings p
unfolding collect_bindings collect_script
collect_bindings_lem = nested_lem script_size some collect_script λ p rec rec' agree.
    fun_ext
      λ s. collect_cmds-Agree p.text rec rec' agree p.base (parse p.text) s (parse-IsWordOf p.text)

module _ (offset : ℕ) (text : Bytes) (rec rec' : Script → Run)
    (agree : (p : Script) → IsBelow (length text) p → rec p ≡ rec' p) where
  run_branches-Agree :
      (ps : List Script) (s : ReachSet) (a : Analyzer)
      → All (IsBelow (length text)) ps
      → run_branches rec ps s a ≡ run_branches rec' ps s a
  unfolding run_branches
  run_branches-Agree [] s a h = refl
  run_branches-Agree (p ∷ ps) s a (h, hs) =
      >>=-eq (ap (λ f. f s a) (agree p h))
        λ f. >>=-eq (run_branches-Agree ps s f.state hs) λ r. refl

  run_apart-Agree :
      (ps : List Script) (s : ReachSet) (a : Analyzer)
      → All (IsBelow (length text)) ps
      → run_apart rec ps s a ≡ run_apart rec' ps s a
  unfolding run_apart
  run_apart-Agree [] s a h = refl
  run_apart-Agree (p ∷ ps) s a (h, hs) =
      >>=-eq (ap (λ f. f s a) (agree p h)) λ f. run_apart-Agree ps s f.state hs

  run_bodies-Agree :
      (ps : List Script) (s : ReachSet) (a : Analyzer)
      → All (IsBelow (length text)) ps
      → run_bodies rec ps s a ≡ run_bodies rec' ps s a
  unfolding run_bodies
  run_bodies-Agree [] s a h = refl
  run_bodies-Agree (p ∷ ps) s a (h, hs) =
      >>=-eq (ap (λ f. f s a) (agree p h))
        λ f. ap (λ r. if f.live then r else some f) (run_bodies-Agree ps f.reach f.state hs)

  run_rounds-Agree :
      (rounds : ℕ) (ps : List Script) (s : ReachSet) (a : Analyzer)
      → All (IsBelow (length text)) ps
      → run_rounds rec rounds ps s a ≡ run_rounds rec' rounds ps s a
  unfolding run_rounds
  run_rounds-Agree zero ps s a h = refl
  run_rounds-Agree (suc rounds) ps s a h = >>=-eq (run_bodies-Agree ps s a h) λ f.
      ap (if◌then◌else◌ (reach_equal (next_head s f) s) _) (run_rounds-Agree rounds ps _ f.state h)

  analyze_if-Agree :
      (c : Command) (base : ℕ) (s : ReachSet) (a : Analyzer)
      → All (IsWordOf text) c
      → analyze_if rec c base s a ≡ analyze_if rec' c base s a
  unfolding analyze_if
  analyze_if-Agree c base s a h = ap (Option.map (joined (not (has_else c)) s)) (
      run_branches-Agree (map (script_of base) (if_bodies c)) s a
        (if_scripts-All (IsBelow (length text)) base c (words-IsBelow text base c h)))

  run-Arms-Agree :
      (c : Command) (base : ℕ) (s : ReachSet) (a : Analyzer) (o : Option (List Word))
      → Arms (IsBelow (length text)) base o
      → (o >>= λ arms. collect_scripts collect_bindings (map (script_of base) arms) [] >>= λ gens.
          run_apart rec (map (script_of base) arms) (join_all (s ∷ gens ∷ [])) a >>= λ a'.
          local_bindings c base >>= λ ds.
          some (flow (add_bindings ds (join_all (s ∷ gens ∷ []))) true a'))
        ≡ (o >>= λ arms. collect_scripts collect_bindings (map (script_of base) arms) [] >>= λ gens.
            run_apart rec' (map (script_of base) arms) (join_all (s ∷ gens ∷ [])) a >>= λ a'.
            local_bindings c base >>= λ ds.
            some (flow (add_bindings ds (join_all (s ∷ gens ∷ []))) true a'))
  run-Arms-Agree c base s a none h = refl
  run-Arms-Agree c base s a (some arms) h =
      >>=-eq refl λ gens. >>=-eq (run_apart-Agree _ _ a h) λ a'. refl

  analyze_conservative-Agree :
      (c : Command) (base : ℕ) (s : ReachSet) (a : Analyzer)
      → All (IsWordOf text) c
      → analyze_conservative rec c base s a ≡ analyze_conservative rec' c base s a
  unfolding analyze_conservative
  analyze_conservative-Agree c base s a h =
      run-Arms-Agree c base s a (arm_words c)
        (arm_words-Arms (IsBelow (length text)) base c (words-IsBelow text base c h))

  analyze_loop-Agree :
      (c : Command) (base : ℕ) (s : ReachSet) (a : Analyzer)
      → All (IsWordOf text) c
      → analyze_loop rec c base s a ≡ analyze_loop rec' c base s a
  unfolding analyze_loop
  analyze_loop-Agree c base s a h = >>=-eq refl λ ds.
      >>=-eq
        (run_rounds-Agree max_loop_iters (map (script_of base) (script_bodies c)) _ (push_loop a)
          (body_scripts-All (IsBelow (length text)) base c (words-IsBelow text base c h)))
        λ r. refl

  dispatch-Agree :
      (c : Command) (base : ℕ) (s : ReachSet) (a : Analyzer)
      → All (IsWordOf text) c
      → dispatch offset rec c base s a ≡ dispatch offset rec' c base s a
  unfolding dispatch
  dispatch-Agree c base s a h =
      ap₂ (if◌then◌else◌ (is_cmd c (codes "if"))) (analyze_if-Agree c base s a h) (
        ap₂ (if◌then◌else◌ (conservative_head c)) (analyze_conservative-Agree c base s a h)
          (ap₂ (if◌then◌else◌ (loop_head c)) (analyze_loop-Agree c base s a h) refl))

  run_seq-Agree :
      (base : ℕ) (cmds : List Command) (s : ReachSet) (a : Analyzer)
      → All (All (IsWordOf text)) cmds
      → run_seq offset rec base cmds s a ≡ run_seq offset rec' base cmds s a
  unfolding run_seq run_command
  run_seq-Agree base [] s a h = refl
  run_seq-Agree base (c ∷ cmds) s a (h, hs) =
      >>=-eq (dispatch-Agree c base s (record_uses offset c base s a) h)
        λ f. ap (λ r. if f.live then r else some f) (run_seq-Agree base cmds f.reach f.state hs)

-- `run` is the recursion of the analyzer with no fuel in it: it analyzes the commands of the script,
-- and the scripts of their branches, arms and rounds by `run` itself. So it ends on every script.
pub run_lem : (offset : ℕ) (p : Script) → run offset p ≡ run_script offset (run offset) p
unfolding run run_script
run_lem offset = nested_lem script_size stopped (run_script offset) λ p rec rec' agree. fun_ext λ s.
    fun_ext λ a.
      run_seq-Agree offset p.text rec rec' agree p.base (parse p.text) s a (parse-IsWordOf p.text)
