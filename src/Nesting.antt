-- ===== src/Nesting.antt =====
-- Recursion into pieces of text: what the walkers of server/internal/tcl have in common. They parse
-- a text and call themselves on shorter texts that stand in it.
use tcl_lsp_nvim.Base.{ℕ, zero, suc, ◌<◌, ◌≡◌, arith}

module _ {ℓ κ} {X : Type ℓ} {R : Type κ} (size : X → ℕ) (stop : R) (step : (X → R) → X → R) where
  -- The recursion on fuel, where `stop` is never seen.
  unfoldable pub nest : ℕ → X → R
  nest zero x = stop
  nest (suc fuel) x = step (nest fuel) x

  unfoldable pub nested : X → R
  unfolding nest
  nested x = nest (suc (size x)) x

  -- The step calls its argument on smaller pieces only.
  abbrev pub IsLocal : Type (ℓ ⊔ κ)
  IsLocal =
      (x : X) (rec rec' : X → R)
      → ((y : X) → size y < size x → rec y ≡ rec' y)
      → step rec x ≡ step rec' x

  nest-fuel : IsLocal → (f g : ℕ) (x : X) → size x < f → size x < g → nest f x ≡ nest g x
  unfolding nest
  nest-fuel local zero g x h k = absurd (omega arith)
  nest-fuel local (suc f) zero x h k = absurd (omega arith)
  nest-fuel local (suc f) (suc g) x h k =
      local x (nest f) (nest g) λ y lt. nest-fuel local f g y (omega arith) (omega arith)

  -- The recursion with no fuel in it.
  pub nested_lem : IsLocal → (x : X) → nested x ≡ step nested x
  unfolding nested nest
  nested_lem local x =
      local x (nest (size x)) nested
        λ y lt. nest-fuel local (size x) (suc (size y)) y lt (omega arith)
