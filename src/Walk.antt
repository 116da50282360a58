-- ===== src/Walk.antt =====
-- server/internal/tcl/walk.go: the traversal that the per-file analyses share. The walkers' recursion
-- is `walk`, over any state: it calls a hook at each command and at each body that it enters.
pub mod Fuel
pub mod Rules
pub mod Scripts
use mathlib.Core.Option
use tcl_lsp_nvim.Base.{ℕ, zero, suc, List, [], ◌∷◌, Bytes, length}
use tcl_lsp_nvim.Parser.{Command, parse}
use tcl_lsp_nvim.Syntax.{Context, frame_namespace, global_ns}
use tcl_lsp_nvim.Bodies.{Body, child_bodies}

-- What a walker does at a command, before its bodies, and on entering a body.
pub record Visitor {ℓ} (S : Type ℓ) : Type ℓ where
  pub command : Command → ℕ → Context → S → S
  pub body : Body → S → S

module _ {ℓ} {S : Type ℓ} (v : Visitor S) where
  unfoldable pub walk_bodies : (Body → S → S) → List Body → S → S
  walk_bodies rec [] s = s
  walk_bodies rec (b ∷ bodies) s = walk_bodies rec bodies (rec b (v.body b s))

  -- The loop over the commands of a script at offset `base`; `rec` walks a body.
  unfoldable pub walk_commands : (Body → S → S) → ℕ → Context → List Command → S → S
  unfolding walk_bodies child_bodies
  walk_commands rec base cx [] s = s
  walk_commands rec base cx (c ∷ cmds) s =
      walk_commands rec base cx cmds
        (walk_bodies rec (child_bodies c base cx) (v.command c base cx s))

  unfoldable pub walk : ℕ → Body → S → S
  unfolding walk_commands parse
  walk zero b s = s
  walk (suc fuel) b s = walk_commands (walk fuel) b.base b.context (parse b.inner) s

  -- The walk of a body, with fuel for every body inside it.
  unfoldable pub walk_body : Body → S → S
  unfolding walk
  walk_body b s = walk (suc (length b.inner)) b s

abbrev pub top_context : Context
top_context = record { ns = global_ns; frame = frame_namespace; scope = 0; class = [] }

-- A file as the body that the File* functions start from.
abbrev pub file_body : Bytes → Body
file_body src = record { inner = src; base = 0; context = top_context }
