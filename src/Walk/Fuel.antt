-- ===== src/Walk/Fuel.antt =====
-- The fuel of `walk` is enough: `walk_body` satisfies the recursion of `walkAll` itself.
use tcl_lsp_nvim.Base.{
  ℕ, zero, suc, ◌<◌, List, [], ◌∷◌, ◌≡◌, refl, ap, ◌∙◌, arith, Bytes, length, All,
}
use tcl_lsp_nvim.Parser.{Command, parse}
use tcl_lsp_nvim.Parser.Words.{IsWordOf, parse-IsWordOf}
use tcl_lsp_nvim.Syntax.{Context}
use tcl_lsp_nvim.Bodies.{Body, child_bodies}
use tcl_lsp_nvim.Bodies.Shorter.{IsShorter, child_bodies-IsShorter}
use tcl_lsp_nvim.Walk.{Visitor, walk_bodies, walk_commands, walk, walk_body}

module _ {ℓ} {S : Type ℓ} (v : Visitor S) where
  -- The same walk of every body of less than `n` bytes.
  abbrev Agree : ℕ → (Body → S → S) → (Body → S → S) → Type ℓ
  Agree n rec rec' = (b : Body) (s : S) → length b.inner < n → rec b s ≡ rec' b s

  walk_bodies-Agree :
      (text : Bytes) (rec rec' : Body → S → S) (bodies : List Body) (s : S)
      → Agree (length text) rec rec'
      → All (IsShorter text) bodies
      → walk_bodies v rec bodies s ≡ walk_bodies v rec' bodies s
  unfolding walk_bodies
  walk_bodies-Agree text rec rec' [] s a h = refl
  walk_bodies-Agree text rec rec' (b ∷ bodies) s a (h, hs) =
      ap (walk_bodies v rec bodies) (a b (v.body b s) h)
      ∙ walk_bodies-Agree text rec rec' bodies (rec' b (v.body b s)) a hs

  walk_commands-Agree :
      (text : Bytes) (rec rec' : Body → S → S) (base : ℕ) (cx : Context) (cmds : List Command)
      (s : S)
      → Agree (length text) rec rec'
      → All (All (IsWordOf text)) cmds
      → walk_commands v rec base cx cmds s ≡ walk_commands v rec' base cx cmds s
  unfolding walk_commands
  walk_commands-Agree text rec rec' base cx [] s a h = refl
  walk_commands-Agree text rec rec' base cx (c ∷ cmds) s a (h, hs) =
      ap (walk_commands v rec base cx cmds) (
        walk_bodies-Agree text rec rec' (child_bodies c base cx) (v.command c base cx s) a
          (child_bodies-IsShorter text base cx c h))
      ∙ walk_commands-Agree text rec rec' base cx cmds _ a hs

  walk-fuel :
      (f g : ℕ) (b : Body) (s : S)
      → length b.inner < f
      → length b.inner < g
      → walk v f b s ≡ walk v g b s
  unfolding walk
  walk-fuel zero g b s h k = absurd (omega arith)
  walk-fuel (suc f) zero b s h k = absurd (omega arith)
  walk-fuel (suc f) (suc g) b s h k =
      walk_commands-Agree b.inner (walk v f) (walk v g) b.base b.context (parse b.inner) s
        (λ b' s' lt. walk-fuel f g b' s' (omega arith) (omega arith)) (parse-IsWordOf b.inner)

  -- `walk_body` is the recursion of `walkAll` with no fuel in it: it walks the commands of the body,
  -- and their bodies by `walk_body` itself. So it ends on every body, and visits all of it.
  pub walk_body_lem :
      (b : Body) (s : S)
      → walk_body v b s ≡ walk_commands v (walk_body v) b.base b.context (parse b.inner) s
  unfolding walk_body walk
  walk_body_lem b s =
      walk_commands-Agree b.inner (walk v (length b.inner)) (walk_body v) b.base b.context
        (parse b.inner) s
        (λ b' s' lt. walk-fuel (length b.inner) (suc (length b'.inner)) b' s' lt (omega arith))
        (parse-IsWordOf b.inner)
