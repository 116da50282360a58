-- ===== src/Files.antt =====
-- The per-file analyses: `FileAll` and `FileFolds`, and `FileDefs`, `FileRefs`, `FileNamespaces` and
-- `FileClasses`, which are the same walk with one collector on. `none` is the panic of `emitDefs`.
pub mod Located
pub mod Agreement
use mathlib.Core.Option
use tcl_lsp_nvim.Base.{
  ℕ, zero, suc, ◌+◌, ◌-◌, Bool, true, false, ◌&&◌, not, List, [], ◌∷◌, ◌++◌, map, Option, none,
  some, ◌==◌, leb, if◌then◌else◌, Bytes, codes, length, get_elem?,
}
use tcl_lsp_nvim.Parser.{Word, Command}
use tcl_lsp_nvim.Syntax.{
  FrameKind, Context, in_class, is_cmd, last_word, has_last_braced, inner_base,
}
use tcl_lsp_nvim.Bodies.{Body, ProcWords, decorated_proc_def}
use tcl_lsp_nvim.Refs.{Reference, shift, refs_of_command}
use tcl_lsp_nvim.Targets.{proc_params}
use tcl_lsp_nvim.Defs.{Definition, local_defs, emit_defs}
use tcl_lsp_nvim.Decls.{Namespaces, Classes, record_ns_decl, record_inherit}
use tcl_lsp_nvim.Walk.{Visitor, walk_body, file_body}

pub record ContextRef : Type 0 where
  pub ref : Reference
  pub context : Context

pub record FileIndex : Type 0 where
  pub defs : List Definition
  pub refs : List ContextRef
  pub namespaces : Namespaces
  pub classes : Classes

-- Which sinks of the struct `collectors` are set.
pub record Collectors : Type 0 where
  pub defs : Bool
  pub refs : Bool
  pub ns : Bool
  pub classes : Bool

-- `emitProcParams` with the scope of the body word.
abbrev pub param_defs : Word → Word → ℕ → Context → List Definition
param_defs args body base cx =
    local_defs (record cx { scope = inner_base body base }) (proc_params args base)

abbrev pub param_defs_of : Option Word → Option Word → ℕ → Context → List Definition
param_defs_of (some args) (some body) base cx = param_defs args body base cx
param_defs_of _ _ base cx = []

-- The parameters of a plain or a decorated proc.
unfoldable pub emit_params : Command → ℕ → Context → List Definition
unfolding is_cmd decorated_proc_def proc_params
emit_params c base cx =
    if is_cmd c (codes "proc") && leb 4 (length c) && has_last_braced c
    then param_defs_of (get_elem? c 2) (last_word c) base cx
    else elim (decorated_proc_def c) [ none ↦ [] | some p ↦ param_defs p.args p.body base cx ]

abbrev pub context_refs : Command → ℕ → Context → List ContextRef
context_refs c base cx = map (λ r. record { ref = shift base r; context = cx }) (refs_of_command c)

-- The collectors of `walkAll` at one command.
abbrev pub collected_defs :
    Bool → Command → ℕ → Context → List Definition → Option (List Definition)
collected_defs false c base cx defs = some defs
collected_defs true c base cx defs =
    Option.map (λ ds. defs ++ (ds ++ emit_params c base cx)) (emit_defs c base cx)

abbrev pub collected_refs : Bool → Command → ℕ → Context → List ContextRef → List ContextRef
collected_refs on c base cx refs = if on then refs ++ context_refs c base cx else refs

abbrev pub collected_ns : Bool → Command → Context → Namespaces → Namespaces
collected_ns on c cx m = if on then record_ns_decl c cx.ns m else m

abbrev pub collected_classes : Bool → Command → Context → Classes → Classes
collected_classes on c cx m =
    if on && in_class cx.frame && not (length cx.class == 0)
    then record_inherit c cx.ns cx.class m
    else m

abbrev pub collect : Collectors → Command → ℕ → Context → FileIndex → Option FileIndex
collect k c base cx fi =
    Option.map
      (λ defs. record {
        defs = defs;
        refs = collected_refs k.refs c base cx fi.refs;
        namespaces = collected_ns k.ns c cx fi.namespaces;
        classes = collected_classes k.classes c cx fi.classes;
      })
      (collected_defs k.defs c base cx fi.defs)

abbrev pub collector : Collectors → Visitor (Option FileIndex)
collector k = record {
  command = λ c base cx s. Option.bind s (collect k c base cx);
  body = λ b s. s;
}

abbrev pub nothing_yet : FileIndex
nothing_yet = record { defs = []; refs = []; namespaces = []; classes = [] }

unfoldable pub walk_all : Collectors → Bytes → Option FileIndex
unfolding walk_body emit_defs emit_params refs_of_command record_ns_decl record_inherit
walk_all k src = walk_body (collector k) (file_body src) (some nothing_yet)

abbrev pub file_all : Bytes → Option FileIndex
file_all = walk_all (record { defs = true; refs = true; ns = true; classes = true })

abbrev pub file_defs : Bytes → Option (List Definition)
file_defs src =
    Option.map (λ fi. fi.defs)
      (walk_all (record { defs = true; refs = false; ns = false; classes = false }) src)

abbrev pub file_refs : Bytes → Option (List ContextRef)
file_refs src =
    Option.map (λ fi. fi.refs)
      (walk_all (record { defs = false; refs = true; ns = false; classes = false }) src)

abbrev pub file_namespaces : Bytes → Option Namespaces
file_namespaces src =
    Option.map (λ fi. fi.namespaces)
      (walk_all (record { defs = false; refs = false; ns = true; classes = false }) src)

abbrev pub file_classes : Bytes → Option Classes
file_classes src =
    Option.map (λ fi. fi.classes)
      (walk_all (record { defs = false; refs = false; ns = false; classes = true }) src)

-- fold.go
pub record FoldRange : Type 0 where
  pub opening : ℕ
  pub closing : ℕ

-- The brace in front of a body, and the offset behind it.
abbrev pub fold_of : Body → FoldRange
fold_of b = record { opening = b.base - 1; closing = b.base + length b.inner }

abbrev pub folder : Visitor (List FoldRange)
folder = record { command = λ c base cx s. s; body = λ b s. s ++ fold_of b ∷ [] }

unfoldable pub file_folds : Bytes → List FoldRange
unfolding walk_body
file_folds src = walk_body folder (file_body src) []
