-- ===== src/Defs/Total.antt =====
-- On which commands `emitDefs` panics.
use mathlib.Core.Option
use tcl_lsp_nvim.Base.{
  ℕ, suc, Bool, true, false, ◌&&◌, not, List, [], ◌∷◌, ◌≡◌, refl, sym, ap, ◌∙◌, Option, some, none,
  ◌==◌, arith, Bytes, codes, length, eql, one_of, if_cases, Bool-cases, eql_iff, inl, inr, subst,
}
use tcl_lsp_nvim.Parser.{Word, Command}
use tcl_lsp_nvim.Syntax.{
  FrameKind, frame_namespace, frame_proc, frame_class, Context, in_class, in_proc, is_bare, is_cmd,
}
use tcl_lsp_nvim.Targets.{lassign_targets, loop_var_words}
use tcl_lsp_nvim.Defs.{Definition, loop_var_defs, emit_defs}

abbrev pub is_none {ℓ} : {A : Type ℓ} → Option A → Bool
is_none none = true
is_none (some _) = false

is_none-map : {A B : Type 0} → (f : A → B) → (o : Option A) → is_none (Option.map f o) ≡ is_none o
is_none-map f none = refl
is_none-map f (some x) = refl

-- The one word `lassign`, bare.
abbrev pub is_lone_lassign : Command → Bool
is_lone_lassign c = length c == 1 && is_cmd c (codes "lassign")

lassign_targets-none :
    (h : Word) (ws : Command) → is_none (lassign_targets (h ∷ ws)) ≡ (length ws == 0)
lassign_targets-none h [] = refl
lassign_targets-none h (w ∷ ws) = ground arith

-- A name in a list that does not hold `name` is not `name`.
one_of-eql :
    (t name : Bytes) (names : List Bytes)
    → one_of name names ≡ false
    → one_of t names ≡ true
    → eql t name ≡ false
one_of-eql t name names h k = elim (Bool-cases (eql t name)) [
  | inl e ↦
      let f : one_of name names ≡ true =
        subst (λ u. one_of u names ≡ true) ((eql_iff t name).0 e) k in
      cc
  | inr e ↦ e
]

one_test : (ws : List Word) → (length ws == 0) ≡ (suc (length ws) == 1 && true)
one_test ws = ground arith

no_test : (ws : List Word) → false ≡ (suc (length ws) == 1 && false)
no_test ws = ground arith

loop_var_words-none : (c : Command) → is_none (loop_var_words c) ≡ is_lone_lassign c
unfolding loop_var_words is_cmd
loop_var_words-none [] = refl
loop_var_words-none (h ∷ ws) =
    let P : Option (List Word) → Type 0 =
      λ o. is_none o ≡ (length (h ∷ ws) == 1 && (is_bare h && eql h.text (codes "lassign"))) in
    if_cases P (not (is_bare h)) _ _
      (λ e. let b : is_bare h ≡ false = ground arith in rw b (ground arith))
      λ e.
        let b : is_bare h ≡ true = ground arith in
        if_cases P (one_of h.text (codes "foreach" ∷ codes "lmap" ∷ [])) _ _
          (λ k.
            rw (b, one_of-eql h.text (codes "lassign") (codes "foreach" ∷ codes "lmap" ∷ []) refl k)
              (no_test ws))
          λ _.
            if_cases P (eql h.text (codes "lassign")) _ _
              (λ k. rw (b, k) (lassign_targets-none h ws ∙ one_test ws))
              λ k.
                if_cases P (eql h.text (codes "dict")) _ _ (λ _. rw (b, k) (no_test ws))
                  λ _. rw (b, k) (no_test ws)

loop_var_defs-none :
    (c : Command) (base : ℕ) (cx : Context)
    → is_none (loop_var_defs c base cx) ≡ (in_proc cx.frame && is_lone_lassign c)
unfolding loop_var_defs
loop_var_defs-none c base cx =
    let P : Option (List Definition) → Type 0 =
      λ o. is_none o ≡ (in_proc cx.frame && is_lone_lassign c) in
    if_cases P (in_proc cx.frame) _ _
      (λ e.
        is_none-map _ (loop_var_words c)
        ∙ loop_var_words-none c
        ∙ sym (ap (λ b. b && is_lone_lassign c) e))
      λ e. sym (ap (λ b. b && is_lone_lassign c) e)

in_class-not_proc : (f : FrameKind) → in_class f ≡ true → in_proc f ≡ false
in_class-not_proc frame_class e = refl
in_class-not_proc frame_namespace e = refl
in_class-not_proc frame_proc e = cc

-- The definitions of a command fail to come about, by the panic of the slice expression for
-- lassign, exactly in a proc frame on a command that is the one bare word lassign; on every
-- other command, in every scope, there is a list of definitions.
pub emit_defs-none :
    (c : Command) (base : ℕ) (cx : Context)
    → is_none (emit_defs c base cx) ≡ (in_proc cx.frame && is_lone_lassign c)
unfolding emit_defs
emit_defs-none c base cx =
    let P : Option (List Definition) → Type 0 =
      λ o. is_none o ≡ (in_proc cx.frame && is_lone_lassign c) in
    if_cases P (in_class cx.frame) _ _
      (λ e. sym (ap (λ b. b && is_lone_lassign c) (in_class-not_proc cx.frame e)))
      λ _. is_none-map _ (loop_var_defs c base cx) ∙ loop_var_defs-none c base cx
