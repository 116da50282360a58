-- ===== src/Walk/Rules.antt =====
-- What a walk keeps, and what two walks keep between them.
use mathlib.Core.List.{Memᴰ}
use tcl_lsp_nvim.Base.{ℕ, zero, suc, List, [], ◌∷◌, Bytes, All, length}
use tcl_lsp_nvim.Parser.{Command, parse}
use tcl_lsp_nvim.Syntax.{Context}
use tcl_lsp_nvim.Bodies.{Body, child_bodies}
use tcl_lsp_nvim.Walk.{Visitor, walk_bodies, walk_commands, walk, walk_body, file_body}
use tcl_lsp_nvim.Walk.Scripts.{
  IsReached, IsMet, file-IsReached, parse-IsMet, child_bodies-IsReached,
}

module _ {ℓ κ} {S : Type ℓ} (v : Visitor S) (src : Bytes) (P : S → Type κ)
    (command_keeps : (c : Command) (base : ℕ) (cx : Context) (s : S)
      → IsMet src c base
      → P s
      → P (v.command c base cx s))
    (body_keeps : (c : Command) (base : ℕ) (cx : Context) (b : Body) (s : S)
      → IsMet src c base
      → Memᴰ b (child_bodies c base cx)
      → P s
      → P (v.body b s)) where
  walk_bodies-keeps :
      (c : Command) (base : ℕ) (cx : Context) (rec : Body → S → S) (bodies : List Body) (s : S)
      → ((b : Body) (s : S) → IsReached src b.base b.inner → P s → P (rec b s))
      → IsMet src c base
      → All (λ b. Memᴰ b (child_bodies c base cx) × IsReached src b.base b.inner) bodies
      → P s
      → P (walk_bodies v rec bodies s)
  unfolding walk_bodies
  walk_bodies-keeps c base cx rec [] s k met h p = p
  walk_bodies-keeps c base cx rec (b ∷ bodies) s k met ((m, l), hs) p =
      walk_bodies-keeps c base cx rec bodies (rec b (v.body b s)) k met hs
        (k b (v.body b s) l (body_keeps c base cx b s met m p))

  walk_commands-keeps :
      (rec : Body → S → S) (base : ℕ) (cx : Context) (cmds : List Command) (s : S)
      → ((b : Body) (s : S) → IsReached src b.base b.inner → P s → P (rec b s))
      → All (λ c. IsMet src c base) cmds
      → P s
      → P (walk_commands v rec base cx cmds s)
  unfolding walk_commands
  walk_commands-keeps rec base cx [] s k h p = p
  walk_commands-keeps rec base cx (c ∷ cmds) s k (met, hs) p =
      walk_commands-keeps rec base cx cmds _ k hs (
        walk_bodies-keeps c base cx rec (child_bodies c base cx) (v.command c base cx s) k met
          (child_bodies-IsReached src base c cx met) (command_keeps c base cx s met p))

  walk-keeps :
      (fuel : ℕ) (b : Body) (s : S) → IsReached src b.base b.inner → P s → P (walk v fuel b s)
  unfolding walk
  walk-keeps zero b s l p = p
  walk-keeps (suc fuel) b s l p =
      walk_commands-keeps (walk v fuel) b.base b.context (parse b.inner) s (walk-keeps fuel)
        (parse-IsMet src b.base b.inner l) p

  -- What both hooks keep, the walk of the file keeps.
  pub walk_body-keeps : (s : S) → P s → P (walk_body v (file_body src) s)
  unfolding walk_body
  walk_body-keeps s p = walk-keeps (suc (length src)) (file_body src) s (file-IsReached src) p

module _ {ℓ κ μ} {S : Type ℓ} {T : Type κ} (v : Visitor S) (u : Visitor T) (R : S → T → Type μ)
    (command_relates : (c : Command) (base : ℕ) (cx : Context) (s : S) (t : T)
      → R s t
      → R (v.command c base cx s) (u.command c base cx t))
    (body_relates : (b : Body) (s : S) (t : T) → R s t → R (v.body b s) (u.body b t)) where
  walk_bodies-relates :
      (rec : Body → S → S) (rec' : Body → T → T) (bodies : List Body) (s : S) (t : T)
      → ((b : Body) (s : S) (t : T) → R s t → R (rec b s) (rec' b t))
      → R s t
      → R (walk_bodies v rec bodies s) (walk_bodies u rec' bodies t)
  unfolding walk_bodies
  walk_bodies-relates rec rec' [] s t k r = r
  walk_bodies-relates rec rec' (b ∷ bodies) s t k r =
      walk_bodies-relates rec rec' bodies _ _ k (k b _ _ (body_relates b s t r))

  walk_commands-relates :
      (rec : Body → S → S) (rec' : Body → T → T) (base : ℕ) (cx : Context) (cmds : List Command)
      (s : S) (t : T)
      → ((b : Body) (s : S) (t : T) → R s t → R (rec b s) (rec' b t))
      → R s t
      → R (walk_commands v rec base cx cmds s) (walk_commands u rec' base cx cmds t)
  unfolding walk_commands
  walk_commands-relates rec rec' base cx [] s t k r = r
  walk_commands-relates rec rec' base cx (c ∷ cmds) s t k r =
      walk_commands-relates rec rec' base cx cmds _ _ k (
        walk_bodies-relates rec rec' (child_bodies c base cx) _ _ k
          (command_relates c base cx s t r))

  walk-relates :
      (fuel : ℕ) (b : Body) (s : S) (t : T) → R s t → R (walk v fuel b s) (walk u fuel b t)
  unfolding walk
  walk-relates zero b s t r = r
  walk-relates (suc fuel) b s t r =
      walk_commands-relates (walk v fuel) (walk u fuel) b.base b.context (parse b.inner) s t
        (walk-relates fuel) r

  -- Two walks whose hooks keep a relation end in related states.
  pub walk_body-relates : (b : Body) (s : S) (t : T) → R s t → R (walk_body v b s) (walk_body u b t)
  unfolding walk_body
  walk_body-relates b s t r = walk-relates (suc (length b.inner)) b s t r
