-- ===== src/ObjMethod/Fuel.antt =====
-- The fuel of `obj_method_in` is enough: it satisfies the recursion of `objMethodInCmds` itself.
use mathlib.Core.Path.{ap₂}
use tcl_lsp_nvim.Base.{
  ℕ, zero, suc, ◌+◌, ◌<◌, ◌≤◌, ◌&&◌, not, List, [], ◌∷◌, ◌≡◌, refl, ap, arith, or_else, ◌==◌,
  if◌then◌else◌, Bytes, length, take, drop, length-drop, All,
}
use tcl_lsp_nvim.Parser.{Word, Command, parse}
use tcl_lsp_nvim.Parser.Words.{IsWordOf, parse-IsWordOf}
use tcl_lsp_nvim.VarRef.{skip_bracket_span}
use tcl_lsp_nvim.Syntax.{Context, is_braced}
use tcl_lsp_nvim.Bodies.{Body}
use tcl_lsp_nvim.Bodies.Nested.{IsWordOf-le}
use tcl_lsp_nvim.Bodies.Shorter.{IsShorter, child_bodies-IsShorter}
use tcl_lsp_nvim.Refs.{bracket_interior}
use tcl_lsp_nvim.Refs.Fuel.{length-bracket_interior}
use tcl_lsp_nvim.Nesting.{nested_lem}
use tcl_lsp_nvim.ObjMethod.{
  Found, obj_method_at_cmd, obj_method_in_text, obj_method_in_word, obj_method_in_words,
  obj_method_in_bodies, obj_method_in_cmds, search_body, body_size, obj_method_in,
}

module _ (text : Bytes) (rec rec' : Body → Found)
    (agree : (b : Body) → length b.inner < length text → rec b ≡ rec' b) where
  obj_method_in_text-Agree :
      (cx : Context) (fuel pos : ℕ) (s : Bytes)
      → length s ≤ length text
      → obj_method_in_text rec cx fuel pos s ≡ obj_method_in_text rec' cx fuel pos s
  unfolding obj_method_in_text
  obj_method_in_text-Agree cx fuel pos [] h = refl
  obj_method_in_text-Agree cx zero pos (c ∷ s) h = refl
  obj_method_in_text-Agree cx (suc fuel) pos (c ∷ s) h =
      let span = skip_bracket_span (c ∷ s) in
      ap₂ (if◌then◌else◌ (c == b'\\' && not (length s == 0)))
        (obj_method_in_text-Agree cx fuel (pos + 2) (drop 1 s) (omega (arith, length-drop 1 s)))
        (ap₂ (if◌then◌else◌ (c == b'['))
          (ap₂ or_else
            (agree
              (record {
                inner = bracket_interior (take span (c ∷ s));
                base = pos + 1;
                context = cx;
              })
              (omega (arith, length-bracket_interior (c ∷ s) span (omega arith))))
            (obj_method_in_text-Agree cx fuel (pos + span) (drop span (c ∷ s))
              (omega (arith, length-drop span (c ∷ s)))))
          (obj_method_in_text-Agree cx fuel (pos + 1) s (omega arith)))

  obj_method_in_words-Agree :
      (base : ℕ) (cx : Context) (ws : List Word)
      → All (IsWordOf text) ws
      → obj_method_in_words rec ws base cx ≡ obj_method_in_words rec' ws base cx
  unfolding obj_method_in_words obj_method_in_word
  obj_method_in_words-Agree base cx [] h = refl
  obj_method_in_words-Agree base cx (w ∷ ws) (h, hs) =
      ap₂ or_else
        (ap (if◌then◌else◌ (is_braced w) _) (
          obj_method_in_text-Agree cx (length w.text) (base + w.start) w.text
            (IsWordOf-le text w h)))
        (obj_method_in_words-Agree base cx ws hs)

  obj_method_in_bodies-Agree :
      (bodies : List Body)
      → All (IsShorter text) bodies
      → obj_method_in_bodies rec bodies ≡ obj_method_in_bodies rec' bodies
  unfolding obj_method_in_bodies
  obj_method_in_bodies-Agree [] h = refl
  obj_method_in_bodies-Agree (b ∷ bodies) (h, hs) =
      ap₂ or_else (agree b h) (obj_method_in_bodies-Agree bodies hs)

  obj_method_in_cmds-Agree :
      (offset base : ℕ) (cx : Context) (cmds : List Command)
      → All (All (IsWordOf text)) cmds
      → obj_method_in_cmds offset rec base cx cmds ≡ obj_method_in_cmds offset rec' base cx cmds
  unfolding obj_method_in_cmds
  obj_method_in_cmds-Agree offset base cx [] h = refl
  obj_method_in_cmds-Agree offset base cx (c ∷ cmds) (h, hs) =
      ap (or_else (obj_method_at_cmd c base offset)) (
        ap₂ or_else (obj_method_in_bodies-Agree _ (child_bodies-IsShorter text base cx c h)) (
          ap₂ or_else (obj_method_in_words-Agree base cx c h)
            (obj_method_in_cmds-Agree offset base cx cmds hs)))

-- `obj_method_in` is the recursion of `objMethodInCmds` with no fuel in it, on every body.
pub obj_method_in_lem :
    (offset : ℕ) (b : Body) → obj_method_in offset b ≡ search_body offset (obj_method_in offset) b
unfolding obj_method_in search_body
obj_method_in_lem offset = nested_lem body_size _ (search_body offset) λ b rec rec' agree.
    obj_method_in_cmds-Agree b.inner rec rec' agree offset b.base b.context (parse b.inner)
      (parse-IsWordOf b.inner)
