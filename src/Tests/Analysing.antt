-- ===== src/Tests/Analysing.antt =====
-- The per-file analyses at small scripts.
use mathlib.Core.Option
use tcl_lsp_nvim.Base.{
  ◌&&◌, List, [], ◌∷◌, ◌≡◌, some, none, refl, map, Bytes, codes, All, drop, subst,
}
use tcl_lsp_nvim.Parser.{bare, braced, Command, parse}
use tcl_lsp_nvim.Parser.Words.{IsWordOf, parse-IsWordOf}
use tcl_lsp_nvim.Located.{Located-all}
use tcl_lsp_nvim.VarRef.{parse_var_ref}
use tcl_lsp_nvim.VarRef.Spelling.{Reads, parse_var_ref-Reads}
use tcl_lsp_nvim.Syntax.{Context, frame_proc, global_ns, in_proc}
use tcl_lsp_nvim.Scripts.{braced_words, if_bodies, if_conditions}
use tcl_lsp_nvim.Scripts.Partition.{Deals, if_bodies-Deals}
use tcl_lsp_nvim.Bodies.{child_bodies}
use tcl_lsp_nvim.Bodies.Nested.{IsNested, child_bodies-IsNested}
use tcl_lsp_nvim.Refs.{ref_command, sub_refs, script_refs}
use tcl_lsp_nvim.Refs.Fuel.{sub_refs_lem}
use tcl_lsp_nvim.Walk.{walk_body, walk_commands, file_body, top_context}
use tcl_lsp_nvim.Walk.Fuel.{walk_body_lem}
use tcl_lsp_nvim.Defs.{emit_defs}
use tcl_lsp_nvim.Defs.Total.{is_none, is_lone_lassign, emit_defs-none}
use tcl_lsp_nvim.Files.{
  ContextRef, FileIndex, file_all, file_defs, file_refs, file_namespaces, file_classes, file_folds,
  walk_all, folder,
}
use tcl_lsp_nvim.Files.Located.{IsContextRefAt, file_refs-IsRefAt}
use tcl_lsp_nvim.Files.Agreement.{file_all-fields}

abbrev script : Bytes
script = codes "namespace eval a {proc p {x {y 1}} {if {[q $x]} {set z $y}}}"

defs_script :
    Option.map (map (λ d. d.name)) (file_defs script)
    ≡ some (codes "::a::p" ∷ codes "x" ∷ codes "y" ∷ codes "z" ∷ [])
unfolding walk_all Option.bind
defs_script = refl

refs_script :
    Option.map (map (λ r. r.ref.name)) (file_refs script)
    ≡ some (
        codes "namespace"
        ∷ codes "proc"
        ∷ codes "if"
        ∷ codes "q"
        ∷ codes "x"
        ∷ codes "set"
        ∷ codes "y"
        ∷ [])
unfolding walk_all Option.bind
refs_script = refl

folds_script : map (λ f. f.closing) (file_folds script) ≡ 59 ∷ 58 ∷ 57 ∷ []
unfolding file_folds
folds_script = refl

-- A proc with the command `lassign` alone in its body.
lassign_script : file_all (codes "proc p {} {lassign}") ≡ none
unfolding walk_all Option.bind
lassign_script = refl

-- A fold of a body that is not closed ends one byte behind its brace, here at the end of the file.
open_body_script :
    file_folds (codes "proc p {} {set x") ≡ record { opening = 10; closing = 11 } ∷ []
unfolding file_folds
open_body_script = refl

parse_var_ref-Reads_example : Reads (codes "{a b} c") (parse_var_ref (codes "{a b} c"))
parse_var_ref-Reads_example = parse_var_ref-Reads (codes "{a b} c")

abbrev call : Bytes
call = codes "p {q}"

abbrev call_words : Command
call_words =
    record { kind = bare; text = codes "p"; start = 0; end = 1 }
    ∷ record { kind = braced; text = codes "{q}"; start = 2; end = 5 }
    ∷ []

parse-call : parse call ≡ call_words ∷ []
unfolding parse
parse-call = refl

call_words-AreWords : All (IsWordOf call) call_words
call_words-AreWords = (subst (All (All (IsWordOf call))) parse-call (parse-IsWordOf call)).0

child_bodies-IsNested_example : All (IsNested call call) (child_bodies call_words 0 top_context)
child_bodies-IsNested_example =
    child_bodies-IsNested call call 0 top_context call_words (Located-all call) call_words-AreWords

sub_refs_lem_example :
    sub_refs (codes "f [g $x]") 4 ≡ script_refs sub_refs 4 (parse (codes "f [g $x]"))
sub_refs_lem_example = sub_refs_lem (codes "f [g $x]") 4

walk_body_lem_example :
    walk_body folder (file_body script) []
    ≡ walk_commands folder (walk_body folder) 0 top_context (parse script) []
walk_body_lem_example = walk_body_lem folder (file_body script) []

abbrev in_a_proc : Context
in_a_proc = record { ns = global_ns; frame = frame_proc; scope = 5; class = [] }

emit_defs-none_example :
    is_none (emit_defs call_words 0 in_a_proc)
    ≡ (in_proc in_a_proc.frame && is_lone_lassign call_words)
emit_defs-none_example = emit_defs-none call_words 0 in_a_proc

file_refs-IsRefAt_example :
    (refs : List ContextRef) × (file_refs script ≡ some refs) × All (IsContextRefAt script) refs
file_refs-IsRefAt_example = file_refs-IsRefAt script

abbrev small : Bytes
small = codes "namespace path a"

abbrev small_index : FileIndex
small_index = record {
  defs = [];
  refs =
      record {
        ref = record { kind = ref_command; name = codes "namespace"; start = 0; end = 9 };
        context = top_context;
      }
      ∷ [];
  namespaces =
      (global_ns, record { name = global_ns; path = codes "::a" ∷ []; exports = []; imports = [] })
      ∷ [];
  classes = [];
}

file_all-small : file_all small ≡ some small_index
unfolding walk_all Option.bind
file_all-small = refl

file_all-fields_example :
    (file_defs small ≡ some small_index.defs)
    × (file_refs small ≡ some small_index.refs)
    × (file_namespaces small ≡ some small_index.namespaces)
    × (file_classes small ≡ some small_index.classes)
file_all-fields_example = file_all-fields small small_index file_all-small

abbrev choice : Command
choice =
    record { kind = bare; text = codes "if"; start = 0; end = 2 }
    ∷ record { kind = braced; text = codes "{$x}"; start = 3; end = 7 }
    ∷ record { kind = braced; text = codes "{f}"; start = 8; end = 11 }
    ∷ []

if_bodies-Deals_example :
    Deals (braced_words (drop 1 choice)) (if_bodies choice) (if_conditions choice)
if_bodies-Deals_example = if_bodies-Deals choice
