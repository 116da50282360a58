-- ===== src/Tests/Resolving.antt =====
-- Reaching definitions, calls on objects and name resolution, at small files.
use mathlib.Core.Option
use tcl_lsp_nvim.Base.{ℕ, ◌+◌, true, List, [], ◌∷◌, ◌≡◌, refl, map, some, Bytes, codes, All}
use tcl_lsp_nvim.Assoc.{find_or}
use tcl_lsp_nvim.Defs.{def_local, Definition}
use tcl_lsp_nvim.Scope.{Scope, enclosing_scope}
use tcl_lsp_nvim.Scope.Containing.{IsScopeAt}
use tcl_lsp_nvim.ObjMethod.{obj_method_at}
use tcl_lsp_nvim.ReachSet.{ReachSet, has_site, join_all}
use tcl_lsp_nvim.ReachSet.Joins.{one_has_binding, reaches-join_all}
use tcl_lsp_nvim.Reaching.{Script}
use tcl_lsp_nvim.Reaching.Running.{run, run_script, reaching_at}
use tcl_lsp_nvim.Reaching.Fuel.{run_lem}
use tcl_lsp_nvim.Reaching.Origins.{Called, reaching_at-Called}
use tcl_lsp_nvim.ClassOf.{class_of}

abbrev choice : Bytes
choice = codes "proc p {} {if 1 {set x 1} else {set x 2}; f $x}"

reaching_at-choice :
    Option.map (Option.map (map (λ d. d.name_start))) (reaching_at choice 45)
    ≡ some (some (21 ∷ 36 ∷ []))
unfolding reaching_at
reaching_at-choice = refl

-- The binding at the end of a round, which reaches the use at the start of the next, is not answered:
-- the answer is taken when the use is first seen.
abbrev looped : Bytes
looped = codes "proc p {} {set x 1; while 1 {f $x; set x 2}}"

reaching_at-looped :
    Option.map (Option.map (map (λ d. d.name_start))) (reaching_at looped 31)
    ≡ some (some (15 ∷ []))
unfolding reaching_at
reaching_at-looped = refl

obj_method_at-body :
    obj_method_at (codes "set o [::C #auto]; if 1 {$o run}") 28 ≡ some (26, codes "run")
unfolding obj_method_at
obj_method_at-body = refl

class_of-instance :
    class_of (codes "proc p {} {set o [::C #auto]; $o run}") 31 ≡ some (codes "::C" ∷ [])
unfolding class_of
class_of-instance = refl

abbrev local_x : ℕ → Definition
local_x n = record {
  kind = def_local;
  name = codes "x";
  namespace = [];
  name_start = n;
  name_end = n + 1;
  full_start = 0;
  full_end = 0;
  scope = 0;
  origin = [];
  class = [];
}

abbrev sets : List ReachSet
sets = ((codes "x", local_x 3 ∷ []) ∷ []) ∷ ((codes "x", local_x 9 ∷ []) ∷ []) ∷ []

reaches-join_all_example :
    has_site (find_or [] (codes "x") (join_all sets)) (local_x 9)
    ≡ one_has_binding (codes "x") (local_x 9) sets
reaches-join_all_example = reaches-join_all (codes "x") (local_x 9) sets

reaches-join_all_found : one_has_binding (codes "x") (local_x 9) sets ≡ true
unfolding one_has_binding
reaches-join_all_found = refl

abbrev choice_body : Script
choice_body = record { text = codes "if 1 {set x 1} else {set x 2}; f $x"; base = 11 }

run_lem_example : run 45 choice_body ≡ run_script 45 (run 45) choice_body
run_lem_example = run_lem 45 choice_body

abbrev straight : Bytes
straight = codes "proc p {} {set x 1; f $x}"

reaching_at-straight : reaching_at straight 23 ≡ some (some (local_x 15 ∷ []))
unfolding reaching_at
reaching_at-straight = refl

reaching_at-Called_example :
    (sc : Scope) × (enclosing_scope straight 23 ≡ some sc)
    × IsScopeAt straight 23 sc
    × ((name : Bytes) × All (Called straight sc name) (local_x 15 ∷ []))
reaching_at-Called_example = reaching_at-Called straight 23 (local_x 15 ∷ []) reaching_at-straight
