-- ===== src/Reaching/Origins.antt =====
-- `ReachingAt` answers bindings of one name, each made by a command of the source or by the list of
-- parameters of the scope.
use mathlib.Core.List.{Memᴰ}
use tcl_lsp_nvim.Base.{
  ℕ, List, [], ◌≡◌, ◌⊎◌, inl, inr, refl, subst, Option, none, some, ltb, Bytes, length, All,
  All-mono, All-Mem, if_cases, IfSome, map-IfSome,
}
use tcl_lsp_nvim.Parser.{Command}
use tcl_lsp_nvim.Syntax.{in_proc}
use tcl_lsp_nvim.Targets.{proc_params}
use tcl_lsp_nvim.Defs.{Definition, local_defs}
use tcl_lsp_nvim.Walk.Scripts.{IsMet}
use tcl_lsp_nvim.Scope.{Scope, enclosing_scope}
use tcl_lsp_nvim.Scope.Containing.{IsScopeAt, enclosing_scope-IsScopeAt}
use tcl_lsp_nvim.ReachSet.{loop_context, local_bindings}
use tcl_lsp_nvim.ReachSet.Joins.{IsKeyed}
use tcl_lsp_nvim.Reaching.{Flow}
use tcl_lsp_nvim.Reaching.Running.{
  run, entry_of, fresh, max_reaching_bytes, answer_of, reaching_in, reaching_at,
}
use tcl_lsp_nvim.Reaching.Sound.{FlowSound, set_bindings_to-IsKeyed}
use tcl_lsp_nvim.Reaching.Answers.{run-RunSound}

-- A command of the source, one that a script of it is parsed into at `base`, makes the binding.
pub record IsMade (src : Bytes) (d : Definition) : Type 0 where
  pub command : Command
  pub base : ℕ
  pub met : IsMet src command base
  pub made : List Definition
  pub bound : local_bindings command base ≡ some made
  pub among : Memᴰ d made

-- The parameters of a scope, as bindings.
abbrev pub params_of : Scope → List Definition
params_of sc =
    local_defs (record loop_context { scope = sc.base }) (proc_params sc.args sc.args_base)

abbrev pub ComesFrom : Bytes → Scope → Definition → Type 0
ComesFrom src sc d = IsMade src d ⊎ Memᴰ d (params_of sc)

abbrev pub Called : Bytes → Scope → Bytes → Definition → Type 0
Called src sc name d = (d.name ≡ name) × ComesFrom src sc d

module _ (src : Bytes) (sc : Scope) where
  local_bindings-Called :
      (c : Command) (base : ℕ) (o : Option (List Definition))
      → local_bindings c base ≡ o
      → IsMet src c base
      → IfSome (All (λ d. Called src sc d.name d)) o
  local_bindings-Called c base none e met = tt
  local_bindings-Called c base (some ds) e met =
      All-mono (λ d. Memᴰ d ds) (λ d. Called src sc d.name d) ds
        (λ d m. (
          refl,
          inl (record { command = c; base = base; met = met; made = ds; bound = e; among = m }),
        ))
        (All-Mem ds)

  entry_of-IsKeyed : IsKeyed (Called src sc) (entry_of sc)
  entry_of-IsKeyed =
      if_cases (IsKeyed (Called src sc)) (in_proc sc.frame) _ _
        (λ _.
          set_bindings_to-IsKeyed (Called src sc) (params_of sc) []
            (All-mono (λ d. Memᴰ d (params_of sc)) (λ d. Called src sc d.name d) (params_of sc)
              (λ d m. (refl, inr m)) (All-Mem (params_of sc)))
            tt)
        λ _. tt

  answer_of-Called :
      (f : Flow)
      → FlowSound (Called src sc) f
      → IfSome (λ ds. (name : Bytes) × All (Called src sc name) ds) (answer_of f.state)
  answer_of-Called f h =
      if_cases (IfSome (λ ds. (name : Bytes) × All (Called src sc name) ds)) f.state.found _ _
        (λ _. h.1.0) λ _. tt

  -- What `ReachingAt` answers in the scope.
  reaching_in-Called :
      (offset : ℕ)
      → IsScopeAt src offset sc
      → IfSome
          (IfSome (λ ds. (name : Bytes) × All (Called src sc name) ds))
          (reaching_in offset (some sc))
  unfolding reaching_in
  reaching_in-Called offset h =
      if_cases (IfSome (IfSome (λ ds. (name : Bytes) × All (Called src sc name) ds)))
        (ltb max_reaching_bytes (length sc.inner)) _ _ (λ _. tt)
        λ _.
          map-IfSome (FlowSound (Called src sc)) _
            (run offset (record { text = sc.inner; base = sc.base }) (entry_of sc) fresh) _
            (run-RunSound (Called src sc) src (λ c base. local_bindings-Called c base _ refl) offset
              _ (h.located, h.script) (entry_of sc) fresh entry_of-IsKeyed (([], tt), tt, tt))
            answer_of-Called

-- If `ReachingAt` answers, then there is a scope round the offset that is a script of the source and has the
-- offset inside, and the bindings that it answers are all of one name, and each is a parameter of the scope, or a binding
-- that is made by a command that a script of the source is parsed into. The scripts are the source and what such commands
-- take as scripts: bodies in some scope, branches, bodies of control commands and arms of a switch.
pub reaching_at-Called :
    (src : Bytes) (offset : ℕ) (ds : List Definition)
    → reaching_at src offset ≡ some (some ds)
    → (sc : Scope) × (enclosing_scope src offset ≡ some sc)
      × IsScopeAt src offset sc
      × ((name : Bytes) × All (Called src sc name) ds)
unfolding reaching_at reaching_in
reaching_at-Called src offset ds e = by_scope (enclosing_scope src offset) refl e
  where
    by_scope :
        (o : Option Scope)
        → enclosing_scope src offset ≡ o
        → reaching_in offset o ≡ some (some ds)
        → (sc : Scope) × (enclosing_scope src offset ≡ some sc)
          × IsScopeAt src offset sc
          × ((name : Bytes) × All (Called src sc name) ds)
    by_scope none p q = cc
    by_scope (some sc) p q =
        let found : IsScopeAt src offset sc =
          subst (IfSome (IsScopeAt src offset)) p (enclosing_scope-IsScopeAt src offset) in
        (
          sc,
          p,
          found,
          subst (IfSome (IfSome (λ ds. (name : Bytes) × All (Called src sc name) ds))) q
              (reaching_in-Called src sc offset found),
        )
