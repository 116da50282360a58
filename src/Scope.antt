-- ===== src/Scope.antt =====
-- server/internal/tcl/reaching.go: the scope round an offset. `none` is `found == false`.
pub mod Containing
pub mod Fuel
use mathlib.Core.Option
use tcl_lsp_nvim.Base.{
  ℕ, zero, suc, ◌+◌, Bool, true, false, ◌&&◌, ◌||◌, not, List, [], ◌∷◌, Option, none, some, or_else,
  ◌==◌, leb, ltb, if◌then◌else◌, Bytes, codes, length, get_elem?,
}
use tcl_lsp_nvim.Parser.{bare, Word, Command, parse}
use tcl_lsp_nvim.Syntax.{
  FrameKind, frame_namespace, frame_proc, Context, in_proc, in_namespace, is_cmd,
}
use tcl_lsp_nvim.Bodies.{Body, decorated_proc_def, child_bodies}
use tcl_lsp_nvim.Walk.{file_body}
use tcl_lsp_nvim.Nesting.{nested}
use tcl_lsp_nvim.ObjMethod.{body_size}

-- The results of `enclosingProcOrScope`.
pub record Scope : Type 0 where
  pub inner : Bytes
  pub base : ℕ
  pub args : Word
  pub args_base : ℕ
  pub frame : FrameKind

-- `Word{}`
abbrev pub no_word : Word
no_word = record { kind = bare; text = []; start = 0; end = 0 }

abbrev word_or : Option Word → Word
word_or none = no_word
word_or (some w) = w

unfoldable pub proc_args_word : Command → Word
unfolding is_cmd decorated_proc_def
proc_args_word c =
    if is_cmd c (codes "proc") && leb 4 (length c)
    then word_or (get_elem? c 2)
    else elim (decorated_proc_def c) [ none ↦ no_word | some p ↦ p.args ]

-- A body that is a scope of its own.
abbrev pub own_scope : Command → ℕ → Body → Option Scope
own_scope c base b =
    if in_proc b.context.frame && b.context.scope == b.base
    then some (record {
      inner = b.inner;
      base = b.base;
      args = proc_args_word c;
      args_base = base;
      frame = frame_proc;
    })
    else if in_namespace b.context.frame && b.context.scope == 0
    then some (record {
      inner = b.inner;
      base = b.base;
      args = no_word;
      args_base = base;
      frame = frame_namespace;
    })
    else none

abbrev pub is_outside : ℕ → Body → Bool
is_outside offset b = ltb offset b.base || leb (b.base + length b.inner) offset

-- The class is not handed down.
abbrev pub classless : Body → Body
classless b = record b { context = record b.context { class = [] } }

unfoldable pub scope_in_bodies : ℕ → (Body → Option Scope) → Command → ℕ → List Body → Option Scope
unfolding proc_args_word
scope_in_bodies offset rec c base [] = none
scope_in_bodies offset rec c base (b ∷ bs) =
    let rest = scope_in_bodies offset rec c base bs in
    let found = or_else (rec (classless b)) (or_else (own_scope c base b) rest) in
    if is_outside offset b then rest else found

unfoldable pub scope_in_cmds : ℕ → (Body → Option Scope) → ℕ → Context → List Command → Option Scope
unfolding scope_in_bodies child_bodies
scope_in_cmds offset rec base cx [] = none
scope_in_cmds offset rec base cx (c ∷ cmds) =
    or_else (scope_in_bodies offset rec c base (child_bodies c base cx))
      (scope_in_cmds offset rec base cx cmds)

unfoldable pub scope_in_body : ℕ → (Body → Option Scope) → Body → Option Scope
unfolding scope_in_cmds parse
scope_in_body offset rec b = scope_in_cmds offset rec b.base b.context (parse b.inner)

-- `enclosingProcOrScope` from the whole source.
unfoldable pub enclosing_scope : Bytes → ℕ → Option Scope
unfolding scope_in_body nested
enclosing_scope src offset = nested body_size none (scope_in_body offset) (file_body src)
