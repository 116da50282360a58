-- ===== src/Scope/Containing.antt =====
-- The scope round an offset stands in the source, and the offset in it.
use tcl_lsp_nvim.Base.{
  ℕ, zero, suc, ◌+◌, ◌≤◌, ◌<◌, false, ◌&&◌, List, [], ◌∷◌, ◌≡◌, arith, Option, none, ◌==◌, Bytes,
  length, All, All-mono, if_cases, IfSome, or_else-IfSome,
}
use tcl_lsp_nvim.Parser.{Command, parse}
use tcl_lsp_nvim.Located.{Located}
use tcl_lsp_nvim.Syntax.{Context, in_proc, in_namespace}
use tcl_lsp_nvim.Bodies.{Body, child_bodies}
use tcl_lsp_nvim.Walk.{file_body}
use tcl_lsp_nvim.Walk.Scripts.{
  IsScript, IsReached, IsMet, file-IsReached, parse-IsMet, child_bodies-IsReached,
}
use tcl_lsp_nvim.Nesting.{nest, nested}
use tcl_lsp_nvim.ObjMethod.{body_size}
use tcl_lsp_nvim.Scope.{
  Scope, own_scope, is_outside, classless, scope_in_bodies, scope_in_cmds, scope_in_body,
  enclosing_scope,
}

-- A scope that stands in `src` at its offset, with `offset` inside.
pub record IsScopeAt (src : Bytes) (offset : ℕ) (sc : Scope) : Type 0 where
  pub located : Located src sc.base sc.inner
  pub script : IsScript src sc.base sc.inner
  pub starts : sc.base ≤ offset
  pub ends : offset < sc.base + length sc.inner

module _ (src : Bytes) (offset : ℕ) where
  abbrev Finds : Option Scope → Type 0
  Finds = IfSome (IsScopeAt src offset)

  is_outside-starts : (b : Body) → is_outside offset b ≡ false → b.base ≤ offset
  is_outside-starts b e = ground arith

  is_outside-ends : (b : Body) → is_outside offset b ≡ false → offset < b.base + length b.inner
  is_outside-ends b e = ground arith

  own_scope-Finds :
      (c : Command) (base : ℕ) (b : Body)
      → IsReached src b.base b.inner
      → is_outside offset b ≡ false
      → Finds (own_scope c base b)
  own_scope-Finds c base b l e =
      let starts = is_outside-starts b e in
      let ends = is_outside-ends b e in
      if_cases Finds (in_proc b.context.frame && b.context.scope == b.base) _ _
        (λ _. record { located = l.0; script = l.1; starts = starts; ends = ends })
        λ _.
          if_cases Finds (in_namespace b.context.frame && b.context.scope == 0) _ _
            (λ _. record { located = l.0; script = l.1; starts = starts; ends = ends }) λ _. tt

  scope_in_bodies-Finds :
      (rec : Body → Option Scope) (c : Command) (base : ℕ) (bodies : List Body)
      → ((b : Body) → IsReached src b.base b.inner → Finds (rec b))
      → All (λ b. IsReached src b.base b.inner) bodies
      → Finds (scope_in_bodies offset rec c base bodies)
  unfolding scope_in_bodies
  scope_in_bodies-Finds rec c base [] r h = tt
  scope_in_bodies-Finds rec c base (b ∷ bodies) r (h, hs) =
      let rest = scope_in_bodies-Finds rec c base bodies r hs in
      if_cases Finds (is_outside offset b) _ _ (λ _. rest)
        λ e. or_else-IfSome (IsScopeAt src offset) (rec (classless b)) _ (r (classless b) h) (
          or_else-IfSome (IsScopeAt src offset) (own_scope c base b) _
            (own_scope-Finds c base b h e) rest)

  scope_in_cmds-Finds :
      (rec : Body → Option Scope) (base : ℕ) (cx : Context) (cmds : List Command)
      → ((b : Body) → IsReached src b.base b.inner → Finds (rec b))
      → All (λ c. IsMet src c base) cmds
      → Finds (scope_in_cmds offset rec base cx cmds)
  unfolding scope_in_cmds
  scope_in_cmds-Finds rec base cx [] r h = tt
  scope_in_cmds-Finds rec base cx (c ∷ cmds) r (met, hs) =
      or_else-IfSome (IsScopeAt src offset)
        (scope_in_bodies offset rec c base (child_bodies c base cx)) _
        (scope_in_bodies-Finds rec c base _ r (
          All-mono _ (λ b. IsReached src b.base b.inner) _ (λ b (m, l). l)
            (child_bodies-IsReached src base c cx met)))
        (scope_in_cmds-Finds rec base cx cmds r hs)

  nest-Finds :
      (fuel : ℕ) (b : Body)
      → IsReached src b.base b.inner
      → Finds (nest body_size none (scope_in_body offset) fuel b)
  unfolding nest scope_in_body
  nest-Finds zero b l = tt
  nest-Finds (suc fuel) b l =
      scope_in_cmds-Finds (nest body_size none (scope_in_body offset) fuel) b.base b.context
        (parse b.inner) (nest-Finds fuel) (parse-IsMet src b.base b.inner l)

-- The scope that is found round an offset, if there is one, is a script of the source at its offset, and
-- the offset is inside it.
pub enclosing_scope-IsScopeAt :
    (src : Bytes) (offset : ℕ) → IfSome (IsScopeAt src offset) (enclosing_scope src offset)
unfolding enclosing_scope nested
enclosing_scope-IsScopeAt src offset =
    nest-Finds src offset (suc (length src)) (file_body src) (file-IsReached src)
