-- ===== src/Scripts/Partition.antt =====
-- The words of an `if`: `ifBodies` against `ifConditions`.
use tcl_lsp_nvim.Base.{List, [], ◌∷◌, Bool-cases, inl, inr, drop}
use tcl_lsp_nvim.Parser.{Word, Command}
use tcl_lsp_nvim.Syntax.{is_braced}
use tcl_lsp_nvim.Scripts.{
  is_condition_of, if_bodies_from, if_conditions_from, if_bodies, if_conditions, braced_words,
}

-- `Deals xs ls rs`: dealt out in order, each word of `xs` goes to `ls` or to `rs`, none to both.
pub data Deals : List Word → List Word → List Word → Type 0 where
  done : Deals [] [] []
  to_first : {x : Word} {xs ls rs : List Word} → Deals xs ls rs → Deals (x ∷ xs) (x ∷ ls) rs
  to_second : {x : Word} {xs ls rs : List Word} → Deals xs ls rs → Deals (x ∷ xs) ls (x ∷ rs)

if_words_from-Deals :
    (prev : Word) (w : List Word)
    → Deals (braced_words w) (if_bodies_from prev w) (if_conditions_from prev w)
unfolding braced_words if_bodies_from if_conditions_from
if_words_from-Deals prev [] = done
if_words_from-Deals prev (x ∷ w) = elim (Bool-cases (is_braced x)) [
  | inr e ↦ rw e (if_words_from-Deals x w)
  | inl e ↦ elim (Bool-cases (is_condition_of prev)) [
    | inl k ↦ rw (e, k) (to_second (if_words_from-Deals x w))
    | inr k ↦ rw (e, k) (to_first (if_words_from-Deals x w))
  ]
]

-- Each braced word behind the head of an `if` is a body or a condition, and never both: dealt out
-- in order, they give the bodies and the conditions.
pub if_bodies-Deals :
    (c : Command) → Deals (braced_words (drop 1 c)) (if_bodies c) (if_conditions c)
unfolding if_bodies if_conditions braced_words
if_bodies-Deals [] = done
if_bodies-Deals (h ∷ w) = if_words_from-Deals h w
