-- ===== src/Reaching/Pieces.antt =====
-- The scripts that the analyzer takes from a command: each is the inside of one of its words, so it is
-- shorter than the text the command was parsed from, and stands at its place.
use mathlib.Core.Option
use mathlib.Core.List.{Memᴰ}
use tcl_lsp_nvim.Base.{
  ℕ, ◌+◌, ◌<◌, List, [], ◌∷◌, ◌++◌, map, Option, none, some, arith, Bytes, codes, length, All,
  All-mono, All-Mem, ◌≡◌, refl, true, drop, subst, All-map, All-append, if_cases,
}
use tcl_lsp_nvim.Parser.{Word, Command}
use tcl_lsp_nvim.Parser.Words.{IsWordOf}
use tcl_lsp_nvim.Located.{Located, Located-IsRange}
use tcl_lsp_nvim.Syntax.{is_cmd, is_braced, braced_inner, inner_base}
use tcl_lsp_nvim.Scripts.{if_bodies, script_bodies, braced_words}
use tcl_lsp_nvim.Scripts.Words.{if_bodies-All, script_bodies-All}
use tcl_lsp_nvim.Bodies.{child_bodies}
use tcl_lsp_nvim.Bodies.Nested.{
  length-braced_inner, braced_inner-Located, IsWordOf-pos, IsWordOf-le,
}
use tcl_lsp_nvim.Bodies.Shorter.{child_bodies-IsShorter}
use tcl_lsp_nvim.Walk.Scripts.{
  IsScript, branch, control, arm, IsReached, IsMet, child_bodies-IsReached,
}
use tcl_lsp_nvim.Reaching.{
  Script, script_of, script_size, body_script, words_from_two, arm_words, proc_at,
}

-- A script that is shorter than `n`.
abbrev pub IsBelow : ℕ → Script → Type 0
IsBelow n p = script_size p < n

-- A script that stands in `src` at its offset.
abbrev pub IsPlaced : Bytes → Script → Type 0
IsPlaced src p = Located src p.base p.text

abbrev pub OfWords : (Script → Type 0) → ℕ → Command → Type 0
OfWords P base c = All (λ w. P (script_of base w)) c

pub words-IsBelow :
    (text : Bytes) (base : ℕ) (c : Command)
    → All (IsWordOf text) c
    → OfWords (IsBelow (length text)) base c
words-IsBelow text base c =
    All-mono (IsWordOf text) (λ w. IsBelow (length text) (script_of base w)) c
      λ w k. omega (arith, length-braced_inner w (IsWordOf-pos text w k), IsWordOf-le text w k)

pub words-IsPlaced :
    (src text : Bytes) (base : ℕ) (c : Command)
    → Located src base text
    → All (IsWordOf text) c
    → OfWords (IsPlaced src) base c
words-IsPlaced src text base c l =
    All-mono (IsWordOf text) (λ w. IsPlaced src (script_of base w)) c
      λ w k.
        braced_inner-Located src (base + w.start) w (IsWordOf-pos text w k)
          (Located-IsRange src base w.start w.end text w.text l k.range)

pub child_scripts-IsBelow :
    (text : Bytes) (base : ℕ) (c : Command)
    → All (IsWordOf text) c
    → All (IsBelow (length text)) (map body_script (child_bodies c base (proc_at base)))
child_scripts-IsBelow text base c h =
    All-map (IsBelow (length text)) body_script _
      (child_bodies-IsShorter text base (proc_at base) c h)

module _ (P : Script → Type 0) (base : ℕ) where
  pub if_scripts-All : (c : Command) → OfWords P base c → All P (map (script_of base) (if_bodies c))
  if_scripts-All c h =
      All-map P (script_of base) (if_bodies c) (if_bodies-All (λ w. P (script_of base w)) c h)

  pub body_scripts-All :
      (c : Command) → OfWords P base c → All P (map (script_of base) (script_bodies c))
  body_scripts-All c h =
      All-map P (script_of base) (script_bodies c)
        (script_bodies-All (λ w. P (script_of base w)) c h)

  braced_words-All : (w : List Word) → OfWords P base w → OfWords P base (braced_words w)
  unfolding braced_words
  braced_words-All [] h = tt
  braced_words-All (x ∷ w) (p, h) =
      if_cases (OfWords P base) (is_braced x) _ _ (λ _. (p, braced_words-All w h))
        λ _. braced_words-All w h

  abbrev pub Arms : Option (List Word) → Type 0
  Arms none = Unit
  Arms (some ws) = All P (map (script_of base) ws)

  switch_words-Arms :
      (c : Command)
      → OfWords P base c
      → Arms (Option.map (λ w. script_bodies c ++ braced_words w) (words_from_two c))
  switch_words-Arms (a ∷ b ∷ w) h =
      All-map P (script_of base) (script_bodies (a ∷ b ∷ w) ++ braced_words w) (
        All-append (λ w. P (script_of base w)) (script_bodies (a ∷ b ∷ w)) (braced_words w)
          (script_bodies-All (λ w. P (script_of base w)) (a ∷ b ∷ w) h) (braced_words-All w h.1.1))
  switch_words-Arms (a ∷ []) h = tt
  switch_words-Arms [] h = tt

  pub arm_words-Arms : (c : Command) → OfWords P base c → Arms (arm_words c)
  unfolding arm_words
  arm_words-Arms c h =
      if_cases Arms (is_cmd c (codes "switch")) _ _ (λ _. switch_words-Arms c h)
        λ _. body_scripts-All c h

-- The scripts that the analyzer takes from a command of `src` are scripts of `src`.
abbrev pub IsRun : Bytes → Script → Type 0
IsRun src p = IsReached src p.base p.text

module _ (src : Bytes) (base : ℕ) (c : Command) (met : IsMet src c base) where
  scripts-IsRun :
      (ws : List Word)
      → All (IsPlaced src) (map (script_of base) ws)
      → All (λ w. IsScript src (inner_base w base) (braced_inner w)) ws
      → All (IsRun src) (map (script_of base) ws)
  scripts-IsRun [] h k = tt
  scripts-IsRun (w ∷ ws) h k = ((h.0, k.0), scripts-IsRun ws h.1 k.1)

  placed : OfWords (IsPlaced src) base c
  placed = words-IsPlaced src met.text base c met.located met.words

  pub if_scripts-IsRun : All (IsRun src) (map (script_of base) (if_bodies c))
  if_scripts-IsRun = scripts-IsRun (if_bodies c) (if_scripts-All (IsPlaced src) base c placed) (
      All-mono _ (λ w. IsScript src (inner_base w base) (braced_inner w)) (if_bodies c)
        (λ w m. branch base met.text c w met.script met.parsed m) (All-Mem (if_bodies c)))

  control-IsScript : All (λ w. IsScript src (inner_base w base) (braced_inner w)) (script_bodies c)
  control-IsScript =
      All-mono _ (λ w. IsScript src (inner_base w base) (braced_inner w)) (script_bodies c)
        (λ w m. control base met.text c w met.script met.parsed m) (All-Mem (script_bodies c))

  pub body_scripts-IsRun : All (IsRun src) (map (script_of base) (script_bodies c))
  body_scripts-IsRun =
      scripts-IsRun (script_bodies c) (body_scripts-All (IsPlaced src) base c placed)
        control-IsScript

  pub child_scripts-IsRun : All (IsRun src) (map body_script (child_bodies c base (proc_at base)))
  child_scripts-IsRun = All-map (IsRun src) body_script (child_bodies c base (proc_at base)) (
      All-mono _ (λ b. IsRun src (body_script b)) _ (λ b (m, l). l)
        (child_bodies-IsReached src base c (proc_at base) met))

  abbrev pub RunArms : Option (List Word) → Type 0
  RunArms none = Unit
  RunArms (some ws) = All (IsRun src) (map (script_of base) ws)

  abbrev ScriptArms : Option (List Word) → Type 0
  ScriptArms none = Unit
  ScriptArms (some ws) = All (λ w. IsScript src (inner_base w base) (braced_inner w)) ws

  switch_words-ScriptArms :
      (d : Command)
      → d ≡ c
      → is_cmd c (codes "switch") ≡ true
      → ScriptArms (Option.map (λ w. script_bodies c ++ braced_words w) (words_from_two d))
  switch_words-ScriptArms (a ∷ b ∷ w) e q =
      All-append (λ w. IsScript src (inner_base w base) (braced_inner w)) (script_bodies c)
        (braced_words w) control-IsScript
        (All-mono _ (λ w. IsScript src (inner_base w base) (braced_inner w)) (braced_words w)
          (λ x m.
            arm base met.text c x met.script met.parsed q
              (subst (λ d. Memᴰ x (braced_words (drop 2 d))) e m))
          (All-Mem (braced_words w)))
  switch_words-ScriptArms (a ∷ []) e q = tt
  switch_words-ScriptArms [] e q = tt

  arm_words-ScriptArms : ScriptArms (arm_words c)
  unfolding arm_words
  arm_words-ScriptArms =
      if_cases ScriptArms (is_cmd c (codes "switch")) _ _ (λ q. switch_words-ScriptArms c refl q)
        λ _. control-IsScript

  run_arms : (o : Option (List Word)) → Arms (IsPlaced src) base o → ScriptArms o → RunArms o
  run_arms none h k = tt
  run_arms (some ws) h k = scripts-IsRun ws h k

  pub arm_words-RunArms : RunArms (arm_words c)
  arm_words-RunArms =
      run_arms (arm_words c) (arm_words-Arms (IsPlaced src) base c placed) arm_words-ScriptArms
