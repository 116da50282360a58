-- ===== src/Walk/Scripts.antt =====
-- server/internal/tcl: the scripts that the analyses reach from a file, and the commands in them.
use mathlib.Core.List.{Memᴰ}
use tcl_lsp_nvim.Base.{ℕ, ◌≡◌, refl, true, drop, codes, Bytes, All, All-mono, All-Mem, All-both}
use tcl_lsp_nvim.Parser.{Word, Command, parse}
use tcl_lsp_nvim.Parser.Words.{IsWordOf, parse-IsWordOf}
use tcl_lsp_nvim.Located.{Located, Located-all}
use tcl_lsp_nvim.Syntax.{Context, is_cmd, braced_inner, inner_base}
use tcl_lsp_nvim.Scripts.{if_bodies, script_bodies, braced_words}
use tcl_lsp_nvim.Bodies.{Body, child_bodies}
use tcl_lsp_nvim.Bodies.Words.{OfWord, child_bodies-All}
use tcl_lsp_nvim.Bodies.Nested.{child_bodies-IsNested}

-- A script of `src`, at its offset: the file, or what a command in the parse of a script takes as a script. That is
-- a body of the command in some scope, a branch of an `if`, a script of a control command, or an arm of a `switch`.
pub data IsScript (src : Bytes) : ℕ → Bytes → Type 0 where
  whole : IsScript src 0 src
  child :
      (base : ℕ) (text : Bytes) (c : Command) (cx : Context) (b : Body)
      → IsScript src base text
      → Memᴰ c (parse text)
      → Memᴰ b (child_bodies c base cx)
      → IsScript src b.base b.inner
  branch :
      (base : ℕ) (text : Bytes) (c : Command) (w : Word)
      → IsScript src base text
      → Memᴰ c (parse text)
      → Memᴰ w (if_bodies c)
      → IsScript src (inner_base w base) (braced_inner w)
  control :
      (base : ℕ) (text : Bytes) (c : Command) (w : Word)
      → IsScript src base text
      → Memᴰ c (parse text)
      → Memᴰ w (script_bodies c)
      → IsScript src (inner_base w base) (braced_inner w)
  arm :
      (base : ℕ) (text : Bytes) (c : Command) (w : Word)
      → IsScript src base text
      → Memᴰ c (parse text)
      → is_cmd c (codes "switch") ≡ true
      → Memᴰ w (braced_words (drop 2 c))
      → IsScript src (inner_base w base) (braced_inner w)

-- A script that stands in `src` at its offset.
abbrev pub IsReached : Bytes → ℕ → Bytes → Type 0
IsReached src base text = Located src base text × IsScript src base text

pub file-IsReached : (src : Bytes) → IsReached src 0 src
file-IsReached src = (Located-all src, whole)

-- A command of `src`: one of the commands that a script of it is parsed into.
pub record IsMet (src : Bytes) (c : Command) (base : ℕ) : Type 0 where
  pub text : Bytes
  pub located : Located src base text
  pub script : IsScript src base text
  pub parsed : Memᴰ c (parse text)
  pub words : All (IsWordOf text) c

pub parse-IsMet :
    (src : Bytes) (base : ℕ) (text : Bytes)
    → IsReached src base text
    → All (λ c. IsMet src c base) (parse text)
parse-IsMet src base text (l, s) =
    All-mono (λ c. Memᴰ c (parse text) × All (IsWordOf text) c) (λ c. IsMet src c base) (parse text)
      (λ c (m, h). record { text = text; located = l; script = s; parsed = m; words = h })
      (All-both (λ c. Memᴰ c (parse text)) (All (IsWordOf text)) (parse text) (All-Mem (parse text))
        (parse-IsWordOf text))

-- The bodies of a command, each one of them and a script of the file.
pub child_bodies-IsReached :
    (src : Bytes) (base : ℕ) (c : Command) (cx : Context)
    → IsMet src c base
    → All
        (λ b. Memᴰ b (child_bodies c base cx) × IsReached src b.base b.inner)
        (child_bodies c base cx)
child_bodies-IsReached src base c cx met =
    All-mono _ (λ b. Memᴰ b (child_bodies c base cx) × IsReached src b.base b.inner)
      (child_bodies c base cx)
      (λ b (m, n). (m, (n.located, child base met.text c cx b met.script met.parsed m)))
      (All-both (λ b. Memᴰ b (child_bodies c base cx)) _ (child_bodies c base cx) (All-Mem _)
        (child_bodies-IsNested src met.text base cx c met.located met.words))

-- The word whose inside a body is.
pub record IsInside (c : Command) (base : ℕ) (b : Body) : Type 0 where
  pub word : Word
  pub among : Memᴰ word c
  pub inner : b.inner ≡ braced_inner word
  pub behind : b.base ≡ inner_base word base

pub child_bodies-IsInside :
    (c : Command) (base : ℕ) (cx : Context) → All (IsInside c base) (child_bodies c base cx)
child_bodies-IsInside c base cx = child_bodies-All (IsInside c base) base c cx (
    All-mono (λ w. Memᴰ w c) (OfWord (IsInside c base) base) c
      (λ w m scope. record { word = w; among = m; inner = refl; behind = refl }) (All-Mem c))
