-- ===== src/Scope/Fuel.antt =====
-- The fuel of `enclosing_scope` is enough: the search satisfies the recursion of `enclosingProcOrScope`.
use mathlib.Core.Path.{ap₂}
use tcl_lsp_nvim.Base.{
  ℕ, ◌<◌, List, [], ◌∷◌, ◌≡◌, refl, ap, Option, none, or_else, if◌then◌else◌, Bytes, length, All,
}
use tcl_lsp_nvim.Parser.{Command, parse}
use tcl_lsp_nvim.Parser.Words.{IsWordOf, parse-IsWordOf}
use tcl_lsp_nvim.Syntax.{Context}
use tcl_lsp_nvim.Bodies.{Body}
use tcl_lsp_nvim.Bodies.Shorter.{IsShorter, child_bodies-IsShorter}
use tcl_lsp_nvim.Nesting.{nested, nested_lem}
use tcl_lsp_nvim.ObjMethod.{body_size}
use tcl_lsp_nvim.Scope.{
  Scope, own_scope, is_outside, classless, scope_in_bodies, scope_in_cmds, scope_in_body,
}

module _ (offset : ℕ) (text : Bytes) (rec rec' : Body → Option Scope)
    (agree : (b : Body) → length b.inner < length text → rec b ≡ rec' b) where
  scope_in_bodies-Agree :
      (c : Command) (base : ℕ) (bodies : List Body)
      → All (IsShorter text) bodies
      → scope_in_bodies offset rec c base bodies ≡ scope_in_bodies offset rec' c base bodies
  unfolding scope_in_bodies
  scope_in_bodies-Agree c base [] h = refl
  scope_in_bodies-Agree c base (b ∷ bodies) (h, hs) =
      let rest = scope_in_bodies-Agree c base bodies hs in
      ap₂ (if◌then◌else◌ (is_outside offset b)) rest
        (ap₂ or_else (agree (classless b) h) (ap (or_else (own_scope c base b)) rest))

  scope_in_cmds-Agree :
      (base : ℕ) (cx : Context) (cmds : List Command)
      → All (All (IsWordOf text)) cmds
      → scope_in_cmds offset rec base cx cmds ≡ scope_in_cmds offset rec' base cx cmds
  unfolding scope_in_cmds
  scope_in_cmds-Agree base cx [] h = refl
  scope_in_cmds-Agree base cx (c ∷ cmds) (h, hs) =
      ap₂ or_else (scope_in_bodies-Agree c base _ (child_bodies-IsShorter text base cx c h))
        (scope_in_cmds-Agree base cx cmds hs)

-- The search for a scope is the recursion of `enclosingProcOrScope` with no fuel in it.
pub scope_in_body_lem :
    (offset : ℕ) (b : Body)
    → nested body_size none (scope_in_body offset) b
      ≡ scope_in_body offset (nested body_size none (scope_in_body offset)) b
unfolding scope_in_body
scope_in_body_lem offset = nested_lem body_size none (scope_in_body offset) λ b rec rec' agree.
    scope_in_cmds-Agree offset b.inner rec rec' agree b.base b.context (parse b.inner)
      (parse-IsWordOf b.inner)
