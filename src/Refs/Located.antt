-- ===== src/Refs/Located.antt =====
-- Every reference stands where its range says, and its text spells its name.
use tcl_lsp_nvim.Base.{
  ℕ, zero, suc, ◌+◌, ◌≤◌, ◌<◌, Bool, true, false, ◌&&◌, not, List, [], ◌∷◌, ◌≡◌, refl, Option, some,
  none, ◌==◌, arith, Bytes, length, take, drop, subst, length-take, All, All-append, if_cases,
}
use tcl_lsp_nvim.Scanner.Advance.{balanced_span-le, balanced_span-pos}
use tcl_lsp_nvim.Scanner.Ranges.{IsRange}
use tcl_lsp_nvim.Parser.{Word}
use tcl_lsp_nvim.Parser.Words.{IsWordOf}
use tcl_lsp_nvim.VarRef.{skip_bracket_span, parse_var_ref}
use tcl_lsp_nvim.VarRef.Spelling.{SpellsVar, Reads, parse_var_ref-Reads}
use tcl_lsp_nvim.Located.{
  Located, Located-all, Located-drop, Located-take, Located-IsRange, IsRange-Located,
}
use tcl_lsp_nvim.Syntax.{is_braced, braced_inner, inner_base, is_literal_name}
use tcl_lsp_nvim.Bodies.Nested.{braced_inner-Located, IsWordOf-pos}
use tcl_lsp_nvim.Refs.{
  RefKind, ref_command, ref_variable, Reference, Sub, bracket_interior, bracket_refs, variable_ref,
  text_refs, starts_at, refs_of_word,
}

-- How a reference of each kind is written.
abbrev pub Spells : RefKind → Bytes → Bytes → Type 0
Spells ref_command name shape = shape ≡ name
Spells ref_variable name shape = SpellsVar name shape

-- The bytes of `src` in the reference's range spell its name.
pub record IsRefAt (src : Bytes) (r : Reference) : Type 0 where
  pub shape : Bytes
  pub spells : Spells r.kind r.name shape
  pub range : IsRange src r.start r.end shape

-- What is asked of `substRefs`, whatever it is: located text has located references.
abbrev pub SubLocated : Bytes → Sub → Type 0
SubLocated src sub =
    (text : Bytes) (pos : ℕ) → Located src pos text → All (IsRefAt src) (sub text pos)

variable_ref-All :
    (src : Bytes) (pos size : ℕ) (s : Bytes) (name : Option Bytes)
    → Reads s (name, size)
    → Located src pos (b'$' ∷ s)
    → All (IsRefAt src) (variable_ref name pos (pos + size))
variable_ref-All src pos size s none h l = tt
variable_ref-All src pos size s (some name) (_, le, _, spelled) l = (
  record {
    shape = take size (b'$' ∷ s);
    spells = spelled;
    range =
        subst (λ n. IsRange src pos (pos + n) (take size (b'$' ∷ s)))
          (length-take size (b'$' ∷ s) le)
          (IsRange-Located src pos (take size (b'$' ∷ s)) (Located-take src pos size (b'$' ∷ s) l));
  },
  tt,
)

pub Reads-le : (s : Bytes) (p : Option Bytes × ℕ) → Reads s p → p.1 ≤ suc (length s)
Reads-le s (none, size) h = h.1
Reads-le s (some name, size) h = h.1

bracket_refs-All :
    (src : Bytes) (sub : Sub) (pos n : ℕ) (s : Bytes)
    → SubLocated src sub
    → 0 < n
    → n ≤ length s
    → Located src pos s
    → All (IsRefAt src) (bracket_refs sub pos (take n s))
bracket_refs-All src sub pos n s k h le l = k (bracket_interior (take n s)) (pos + 1) (
    Located-take src (pos + 1) _ (drop 1 (take n s)) (
      Located-drop src pos 1 (take n s) (omega (arith, length-take n s le))
        (Located-take src pos n s l)))

text_refs-All :
    (src : Bytes) (vars : Bool) (sub : Sub) (fuel pos : ℕ) (s : Bytes)
    → SubLocated src sub
    → Located src pos s
    → All (IsRefAt src) (text_refs vars sub fuel pos s)
unfolding text_refs
text_refs-All src vars sub fuel pos [] k l = tt
text_refs-All src vars sub zero pos (c ∷ s) k l = tt
text_refs-All src vars sub (suc fuel) pos (c ∷ s) k l =
    if_cases (All (IsRefAt src)) (c == b'\\' && not (length s == 0)) _ _
      (λ h.
        text_refs-All src vars sub fuel (pos + 2) (drop 1 s) k
          (Located-drop src pos 2 (c ∷ s) (ground arith) l))
      λ _.
        if_cases (All (IsRefAt src)) (vars && c == b'$') _ _
          (λ h.
            let p = parse_var_ref s in
            let reads = parse_var_ref-Reads s in
            let e : c ≡ b'$' = ground arith in
            All-append (IsRefAt src) (variable_ref p.0 pos (pos + p.1))
              (text_refs vars sub fuel (pos + p.1) (drop p.1 (c ∷ s)))
              (variable_ref-All src pos p.1 s p.0 reads (subst (λ x. Located src pos (x ∷ s)) e l))
              (text_refs-All src vars sub fuel (pos + p.1) (drop p.1 (c ∷ s)) k
                (Located-drop src pos p.1 (c ∷ s) (Reads-le s p reads) l)))
          λ _.
            if_cases (All (IsRefAt src)) (c == b'[') _ _
              (λ _.
                let n = skip_bracket_span (c ∷ s) in
                let le = balanced_span-le b'[' b']' 0 (c ∷ s) in
                All-append (IsRefAt src) (bracket_refs sub pos (take n (c ∷ s)))
                  (text_refs vars sub fuel (pos + n) (drop n (c ∷ s)))
                  (bracket_refs-All src sub pos n (c ∷ s) k (balanced_span-pos b'[' b']' 0 c s) le
                    l)
                  (text_refs-All src vars sub fuel (pos + n) (drop n (c ∷ s)) k
                    (Located-drop src pos n (c ∷ s) le l)))
              λ _.
                text_refs-All src vars sub fuel (pos + 1) s k
                  (Located-drop src pos 1 (c ∷ s) (omega arith) l)

word_Located : (text : Bytes) (w : Word) → IsWordOf text w → Located text w.start w.text
word_Located text w h =
    subst (λ n. Located text n w.text) (omega arith)
      (Located-IsRange text 0 w.start w.end text w.text (Located-all text) h.range)

pub refs_of_word-All :
    (text : Bytes) (sub : Sub) (exprs : List Word) (first : Bool) (w : Word)
    → SubLocated text sub
    → IsWordOf text w
    → All (IsRefAt text) (refs_of_word sub exprs first w)
unfolding refs_of_word
refs_of_word-All text sub exprs first w k h =
    let l = word_Located text w h in
    if_cases (All (IsRefAt text)) (first && is_literal_name w) _ _
      (λ _. (record { shape = w.text; spells = refl; range = h.range }, tt))
      λ _.
        if_cases (All (IsRefAt text)) (is_braced w && starts_at w.start exprs) _ _
          (λ _.
            text_refs-All text false sub (length (braced_inner w)) (inner_base w 0) (braced_inner w)
              k
              (subst (λ n. Located text n (braced_inner w)) (omega arith)
                (braced_inner-Located text w.start w (IsWordOf-pos text w h) l)))
          λ _.
            if_cases (All (IsRefAt text)) (is_braced w) _ _ (λ _. tt)
              λ _. text_refs-All text true sub (length w.text) w.start w.text k l
