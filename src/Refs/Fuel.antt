-- ===== src/Refs/Fuel.antt =====
-- The fuel of `subst_refs` is enough: `sub_refs` satisfies the recursion of `substRefs` itself.
use tcl_lsp_nvim.Base.{
  ℕ, zero, suc, ◌+◌, ◌≤◌, ◌<◌, Bool, true, false, ◌&&◌, not, List, [], ◌∷◌, ◌++◌, map, ◌≡◌, refl,
  ap, ◌==◌, arith, if◌then◌else◌, Bytes, length, take, drop, flatten, length-drop,
  length-take-le_length, All, All-mono, map-eq_of_All,
}
use mathlib.Core.Path.{ap₂}
use tcl_lsp_nvim.Parser.{Word, Command, parse}
use tcl_lsp_nvim.Parser.Words.{IsWordOf, parse-IsWordOf}
use tcl_lsp_nvim.VarRef.{skip_bracket_span, parse_var_ref}
use tcl_lsp_nvim.Syntax.{is_braced, braced_inner, inner_base, is_literal_name}
use tcl_lsp_nvim.Scripts.{expr_bodies}
use tcl_lsp_nvim.Bodies.{Body, child_bodies}
use tcl_lsp_nvim.Bodies.Nested.{length-braced_inner, IsWordOf-pos, IsWordOf-le}
use tcl_lsp_nvim.Bodies.Shorter.{IsShorter, child_bodies-IsShorter}
use tcl_lsp_nvim.Refs.{
  Sub, bracket_interior, variable_ref, text_refs, starts_at, refs_of_word, command_refs, shift,
  neutral, body_refs, script_refs, subst_refs, sub_refs,
}

-- The same references for every text of less than `n` bytes.
abbrev Agree : ℕ → Sub → Sub → Type 0
Agree n sub sub' = (text : Bytes) (pos : ℕ) → length text < n → sub text pos ≡ sub' text pos

pub length-bracket_interior :
    (s : Bytes) (m : ℕ) → 0 < length s → length (bracket_interior (take m s)) < length s
length-bracket_interior s m h = omega (
  arith,
  length-take-le_length _ (drop 1 (take m s)),
  length-drop 1 (take m s),
  length-take-le_length m s,
)

module _ (n : ℕ) (sub sub' : Sub) (agree : Agree n sub sub') where
  text_refs-Agree :
      (vars : Bool) (fuel pos : ℕ) (s : Bytes)
      → length s ≤ n
      → text_refs vars sub fuel pos s ≡ text_refs vars sub' fuel pos s
  unfolding text_refs
  text_refs-Agree vars fuel pos [] h = refl
  text_refs-Agree vars zero pos (c ∷ s) h = refl
  text_refs-Agree vars (suc fuel) pos (c ∷ s) h =
      let p = parse_var_ref s in
      let span = skip_bracket_span (c ∷ s) in
      let shorter = λ (m : ℕ). length-drop m (c ∷ s) in
      ap₂ (if◌then◌else◌ (c == b'\\' && not (length s == 0)))
        (text_refs-Agree vars fuel (pos + 2) (drop 1 s) (omega (arith, length-drop 1 s)))
        (ap₂ (if◌then◌else◌ (vars && c == b'$'))
          (ap (◌++◌ (variable_ref p.0 pos (pos + p.1))) (
            text_refs-Agree vars fuel (pos + p.1) (drop p.1 (c ∷ s))
              (omega (arith, length-drop p.1 (c ∷ s)))))
          (ap₂ (if◌then◌else◌ (c == b'['))
            (ap₂ ◌++◌
              (agree (bracket_interior (take span (c ∷ s))) (pos + 1)
                (omega (arith, length-bracket_interior (c ∷ s) span (omega arith))))
              (text_refs-Agree vars fuel (pos + span) (drop span (c ∷ s))
                (omega (arith, length-drop span (c ∷ s)))))
            (text_refs-Agree vars fuel (pos + 1) s (omega arith))))

  refs_of_word-Agree :
      (text : Bytes) (exprs : List Word) (first : Bool) (w : Word)
      → length text ≡ n
      → IsWordOf text w
      → refs_of_word sub exprs first w ≡ refs_of_word sub' exprs first w
  unfolding refs_of_word
  refs_of_word-Agree text exprs first w e h =
      let le = IsWordOf-le text w h in
      let inner = length-braced_inner w (IsWordOf-pos text w h) in
      ap (if◌then◌else◌ (first && is_literal_name w) _) (
        ap₂ (if◌then◌else◌ (is_braced w && starts_at w.start exprs))
          (text_refs-Agree false (length (braced_inner w)) (inner_base w 0) (braced_inner w)
            (omega arith))
          (ap (if◌then◌else◌ (is_braced w) [])
            (text_refs-Agree true (length w.text) w.start w.text (omega arith))))

  command_refs-Agree :
      (text : Bytes) (c : Command)
      → length text ≡ n
      → All (IsWordOf text) c
      → command_refs sub c ≡ command_refs sub' c
  unfolding command_refs
  command_refs-Agree text [] e h = refl
  command_refs-Agree text (w ∷ ws) e (h, hs) =
      let exprs = expr_bodies (w ∷ ws) in
      ap₂ ◌++◌ (refs_of_word-Agree text exprs true w e h) (
        ap flatten (
          map-eq_of_All (refs_of_word sub exprs false) (refs_of_word sub' exprs false) ws (
            All-mono (IsWordOf text)
              (λ w. refs_of_word sub exprs false w ≡ refs_of_word sub' exprs false w) ws
              (λ w. refs_of_word-Agree text exprs false w e) hs)))

  body_refs-Agree :
      (text : Bytes) (bodies : List Body)
      → length text ≡ n
      → All (IsShorter text) bodies
      → body_refs sub bodies ≡ body_refs sub' bodies
  body_refs-Agree text bodies e h = ap flatten (
      map-eq_of_All (λ b. sub b.inner b.base) (λ b. sub' b.inner b.base) bodies
        (All-mono (IsShorter text) (λ b. sub b.inner b.base ≡ sub' b.inner b.base) bodies
          (λ b k. agree b.inner b.base (omega arith)) h))

  script_refs-Agree :
      (text : Bytes) (base : ℕ) (cmds : List Command)
      → length text ≡ n
      → All (All (IsWordOf text)) cmds
      → script_refs sub base cmds ≡ script_refs sub' base cmds
  unfolding script_refs
  script_refs-Agree text base [] e h = refl
  script_refs-Agree text base (c ∷ cmds) e (h, hs) =
      ap₂ ◌++◌ (ap (map (shift base)) (command_refs-Agree text c e h)) (
        ap₂ ◌++◌
          (body_refs-Agree text (child_bodies c base neutral) e
            (child_bodies-IsShorter text base neutral c h))
          (script_refs-Agree text base cmds e hs))

-- Any two amounts of fuel above the text's length give the same references.
subst_refs-fuel :
    (f g : ℕ) (text : Bytes) (pos : ℕ)
    → length text < f
    → length text < g
    → subst_refs f text pos ≡ subst_refs g text pos
unfolding subst_refs
subst_refs-fuel zero g text pos h k = absurd (omega arith)
subst_refs-fuel (suc f) zero text pos h k = absurd (omega arith)
subst_refs-fuel (suc f) (suc g) text pos h k =
    script_refs-Agree (length text) (subst_refs f) (subst_refs g)
      (λ u p lt. subst_refs-fuel f g u p (omega arith) (omega arith)) text pos (parse text) refl
      (parse-IsWordOf text)

-- `sub_refs` is the recursion of `substRefs` with no fuel in it: the references of the commands
-- of the interior, and those of their bodies, found by `sub_refs` itself. So it ends on every
-- text, and nothing is cut short.
pub sub_refs_lem :
    (inner : Bytes) (base : ℕ) → sub_refs inner base ≡ script_refs sub_refs base (parse inner)
unfolding sub_refs subst_refs
sub_refs_lem inner base =
    script_refs-Agree (length inner) (subst_refs (length inner)) sub_refs
      (λ u p lt. subst_refs-fuel (length inner) (suc (length u)) u p lt (omega arith)) inner base
      (parse inner) refl (parse-IsWordOf inner)
