-- ===== src/Scripts/Words.antt =====
-- What is chosen as a script or an expression is a word of the command.
use tcl_lsp_nvim.Base.{
  ℕ, zero, suc, ◌-◌, not, List, [], ◌∷◌, ◌++◌, codes, length, drop, eql, one_of, All, All-append,
  if_cases,
}
use tcl_lsp_nvim.Parser.{Word, Command}
use tcl_lsp_nvim.Syntax.{is_bare, is_braced, braced_at, last_braced}
use tcl_lsp_nvim.Scripts.{
  is_condition_of, if_bodies_from, if_bodies, handler_bodies, try_bodies, data_brace_commands,
  is_dict_loop, script_bodies_of, script_bodies,
}

module _ (P : Word → Type 0) where
  pub All-braced_at : (w : Command) (i : ℕ) → All P w → All P (braced_at w i)
  All-braced_at [] i h = tt
  All-braced_at (x ∷ w) zero h = if_cases (All P) (is_braced x) (x ∷ []) [] (λ _. (h.0, tt)) λ _. tt
  All-braced_at (x ∷ w) (suc i) h = All-braced_at w i h.1

  All-drop : (n : ℕ) (w : Command) → All P w → All P (drop n w)
  All-drop zero w h = h
  All-drop (suc n) [] h = tt
  All-drop (suc n) (x ∷ w) h = All-drop n w h.1

  if_bodies_from-All : (prev : Word) (w : List Word) → All P w → All P (if_bodies_from prev w)
  unfolding if_bodies_from
  if_bodies_from-All prev [] h = tt
  if_bodies_from-All prev (x ∷ w) (p, h) =
      let ih = if_bodies_from-All x w h in
      if_cases (All P) (not (is_braced x)) _ _ (λ _. ih)
        λ _. if_cases (All P) (is_condition_of prev) _ _ (λ _. ih) λ _. (p, ih)

  handler_bodies-All : (w : List Word) → All P w → All P (handler_bodies w)
  unfolding handler_bodies
  handler_bodies-All [] h = tt
  handler_bodies-All (x ∷ w) (p, h) =
      let ih = handler_bodies-All w h in
      if_cases (All P) (not (is_bare x)) _ _ (λ _. ih)
        λ _.
          if_cases (All P) (one_of x.text (codes "on" ∷ codes "trap" ∷ [])) _ _
            (λ _. All-append P (braced_at w 2) (handler_bodies w) (All-braced_at w 2 h) ih)
            λ _.
              if_cases (All P) (eql x.text (codes "finally")) _ _
                (λ _. All-append P (braced_at w 0) (handler_bodies w) (All-braced_at w 0 h) ih)
                λ _. ih

  pub if_bodies-All : (w : Command) → All P w → All P (if_bodies w)
  unfolding if_bodies
  if_bodies-All [] h = tt
  if_bodies-All (x ∷ w) (p, h) = if_bodies_from-All x w h

  try_bodies-All : (w : Command) → All P w → All P (try_bodies w)
  unfolding try_bodies
  try_bodies-All w h =
      All-append P (braced_at w 1) (handler_bodies (drop 2 w)) (All-braced_at w 1 h)
        (handler_bodies-All (drop 2 w) (All-drop 2 w h))

  pub last_braced-All : (w : Command) → All P w → All P (last_braced w)
  last_braced-All w h = All-braced_at w (length w - 1) h

  for_bodies-All :
      (w : Command) → All P w → All P (braced_at w 1 ++ (braced_at w 3 ++ braced_at w 4))
  for_bodies-All w h =
      All-append P (braced_at w 1) (braced_at w 3 ++ braced_at w 4) (All-braced_at w 1 h)
        (All-append P (braced_at w 3) (braced_at w 4) (All-braced_at w 3 h) (All-braced_at w 4 h))

  script_bodies_of-All : (head : List ℕ) (w : Command) → All P w → All P (script_bodies_of head w)
  unfolding script_bodies_of
  script_bodies_of-All head w h =
      let last = last_braced-All w h in
      if_cases (All P) (one_of head (codes "while" ∷ codes "foreach" ∷ codes "lmap" ∷ [])) _ _
        (λ _. last)
        λ _.
          if_cases (All P) (eql head (codes "dict")) _ _
            (λ _. if_cases (All P) (is_dict_loop w) _ _ (λ _. last) λ _. tt)
            λ _.
              if_cases (All P) (eql head (codes "catch")) _ _ (λ _. All-braced_at w 1 h)
                λ _.
                  if_cases (All P) (eql head (codes "for")) _ _ (λ _. for_bodies-All w h)
                    λ _.
                      if_cases (All P) (eql head (codes "if")) _ _ (λ _. if_bodies-All w h)
                        λ _.
                          if_cases (All P) (eql head (codes "try")) _ _ (λ _. try_bodies-All w h)
                            λ _.
                              if_cases (All P) (not (one_of head data_brace_commands)) _ _
                                (λ _. last) λ _. tt

  pub script_bodies-All : (w : Command) → All P w → All P (script_bodies w)
  unfolding script_bodies
  script_bodies-All [] h = tt
  script_bodies-All (x ∷ w) h =
      if_cases (All P) (is_bare x) _ _ (λ _. script_bodies_of-All x.text (x ∷ w) h) λ _. tt
