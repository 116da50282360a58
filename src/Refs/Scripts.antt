-- ===== src/Refs/Scripts.antt =====
-- The references of whole scripts: `CommandRefs` and `substRefs`.
use tcl_lsp_nvim.Base.{
  ℕ, zero, suc, ◌+◌, true, false, List, [], ◌∷◌, ◌++◌, map, Bytes, flatten, All, All-append,
  All-map, All-mono, All-flatten-map,
}
use tcl_lsp_nvim.Scanner.Ranges.{IsRange}
use tcl_lsp_nvim.Parser.{Command, parse}
use tcl_lsp_nvim.Parser.Words.{IsWordOf, parse-IsWordOf}
use tcl_lsp_nvim.Located.{Located, IsRange-shift}
use tcl_lsp_nvim.Scripts.{expr_bodies}
use tcl_lsp_nvim.Bodies.{Body, child_bodies}
use tcl_lsp_nvim.Bodies.Nested.{IsNested, child_bodies-IsNested}
use tcl_lsp_nvim.Refs.{
  Reference, Sub, refs_of_word, command_refs, shift, neutral, body_refs, script_refs, subst_refs,
}
use tcl_lsp_nvim.Refs.Located.{IsRefAt, SubLocated, refs_of_word-All}

pub command_refs-All :
    (text : Bytes) (sub : Sub) (c : Command)
    → SubLocated text sub
    → All (IsWordOf text) c
    → All (IsRefAt text) (command_refs sub c)
unfolding command_refs
command_refs-All text sub [] k h = tt
command_refs-All text sub (w ∷ ws) k (h, hs) =
    let exprs = expr_bodies (w ∷ ws) in
    All-append (IsRefAt text) (refs_of_word sub exprs true w)
      (flatten (map (refs_of_word sub exprs false) ws)) (refs_of_word-All text sub exprs true w k h)
      (All-flatten-map (IsRefAt text) (refs_of_word sub exprs false) ws (
        All-mono (IsWordOf text) (λ w. All (IsRefAt text) (refs_of_word sub exprs false w)) ws
          (λ w. refs_of_word-All text sub exprs false w k) hs))

pub shift-IsRefAt :
    (src : Bytes) (base : ℕ) (text : Bytes) (r : Reference)
    → Located src base text
    → IsRefAt text r
    → IsRefAt src (shift base r)
shift-IsRefAt src base text r l h = record { shape = h.shape; spells = h.spells; range = moved }
  where
    moved : IsRange src (r.start + base) (r.end + base) h.shape
    moved = IsRange-shift src base r.start r.end text h.shape l h.range

body_refs-All :
    (src text : Bytes) (sub : Sub) (bodies : List Body)
    → SubLocated src sub
    → All (IsNested src text) bodies
    → All (IsRefAt src) (body_refs sub bodies)
body_refs-All src text sub bodies k h =
    All-flatten-map (IsRefAt src) (λ b. sub b.inner b.base) bodies
      (All-mono (IsNested src text) (λ b. All (IsRefAt src) (sub b.inner b.base)) bodies
        (λ b n. k b.inner b.base n.located) h)

script_refs-All :
    (src text : Bytes) (sub : Sub) (base : ℕ) (cmds : List Command)
    → ((src : Bytes) → SubLocated src sub)
    → Located src base text
    → All (All (IsWordOf text)) cmds
    → All (IsRefAt src) (script_refs sub base cmds)
unfolding script_refs
script_refs-All src text sub base [] k l h = tt
script_refs-All src text sub base (c ∷ cmds) k l (h, hs) =
    let bodies = child_bodies c base neutral in
    All-append (IsRefAt src) (map (shift base) (command_refs sub c))
      (body_refs sub bodies ++ script_refs sub base cmds)
      (All-map (IsRefAt src) (shift base) (command_refs sub c) (
        All-mono (IsRefAt text) (λ r. IsRefAt src (shift base r)) (command_refs sub c)
          (λ r. shift-IsRefAt src base text r l) (command_refs-All text sub c (k text) h)))
      (All-append (IsRefAt src) (body_refs sub bodies) (script_refs sub base cmds)
        (body_refs-All src text sub bodies (k src)
          (child_bodies-IsNested src text base neutral c l h))
        (script_refs-All src text sub base cmds k l hs))

-- Every reference inside a substitution, at any depth, stands in the source where its range
-- says, and its text there spells its name.
pub subst_refs-SubLocated : (fuel : ℕ) (src : Bytes) → SubLocated src (subst_refs fuel)
unfolding subst_refs
subst_refs-SubLocated zero src text pos l = tt
subst_refs-SubLocated (suc fuel) src text pos l =
    script_refs-All src text (subst_refs fuel) pos (parse text) (subst_refs-SubLocated fuel) l
      (parse-IsWordOf text)
