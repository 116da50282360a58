-- ===== src/ReachSet.antt =====
-- server/internal/tcl/reaching.go: reaching sets, and the bindings that one command makes. A set maps a
-- variable to the bindings that may reach; a nil set is the empty one.
pub mod Joins
use mathlib.Core.Option
use tcl_lsp_nvim.Base.{
  ℕ, ◌+◌, Bool, true, false, ◌&&◌, ◌||◌, List, [], ◌∷◌, ◌++◌, map, Option, none, some, ◌==◌, leb,
  if◌then◌else◌, Bytes, codes, length, drop, eql, flatten,
}
use tcl_lsp_nvim.Assoc.{Assoc, lookup, find_or, alter}
use tcl_lsp_nvim.Parser.{Word, Command}
use tcl_lsp_nvim.Syntax.{Context, FrameKind, frame_proc, global_ns, is_cmd, is_plain_name}
use tcl_lsp_nvim.Targets.{Target, array_base_name, loop_var_words, var_list_names}
use tcl_lsp_nvim.Defs.{
  DefKind, def_local, Definition, local_def, moved, name_at, target_def, one_def, plain_at_one,
  base_at_one, is_rmw, global_links, upvar_args, local_defs,
}

abbrev pub ReachSet : Type 0
ReachSet = Assoc (List Definition)

-- Identity by binding site.
abbrev pub same_site : Definition → Definition → Bool
same_site x d = x.name_start == d.name_start && x.name_end == d.name_end

unfoldable pub has_site : List Definition → Definition → Bool
has_site [] d = false
has_site (x ∷ list) d = same_site x d || has_site list d

unfoldable pub append_dedup : List Definition → Definition → List Definition
unfolding has_site
append_dedup list d = if has_site list d then list else list ++ d ∷ []

-- `s[name] = appendDedup(s[name], d)`
abbrev pub add_binding : Bytes → Definition → ReachSet → ReachSet
add_binding name d s = alter [] name (λ list. append_dedup list d) s

-- The loops of `joinAll`: over the bindings of a name, the names of a set, the sets.
unfoldable pub join_defs : Bytes → List Definition → ReachSet → ReachSet
unfolding append_dedup alter
join_defs name [] out = out
join_defs name (d ∷ defs) out = join_defs name defs (add_binding name d out)

unfoldable pub join_set : ReachSet → ReachSet → ReachSet
unfolding join_defs
join_set [] out = out
join_set ((name, defs) ∷ s) out = join_set s (join_defs name defs out)

unfoldable pub join_sets : List ReachSet → ReachSet → ReachSet
unfolding join_set
join_sets [] out = out
join_sets (s ∷ sets) out = join_sets sets (join_set s out)

abbrev pub join_all : List ReachSet → ReachSet
join_all sets = join_sets sets []

-- Whether each of some bindings has its site among others: the last loop of `reachEqual`.
unfoldable pub all_seen : List Definition → List Definition → Bool
unfolding has_site
all_seen da [] = true
all_seen da (d ∷ db) = has_site da d && all_seen da db

abbrev pub equal_at : List Definition → Option (List Definition) → Bool
equal_at da none = false
equal_at da (some db) = length da == length db && all_seen da db

unfoldable pub equal_from : ReachSet → ReachSet → Bool
unfolding lookup all_seen
equal_from [] b = true
equal_from ((name, da) ∷ a) b = equal_at da (lookup name b) && equal_from a b

abbrev pub reach_equal : ReachSet → ReachSet → Bool
reach_equal a b = length a == length b && equal_from a b

-- The frame of the bindings: the fields that `localBindings` leaves unset are empty.
abbrev pub no_context : Context
no_context = record { ns = []; frame = frame_proc; scope = 0; class = [] }

-- `emitLoopVarDefs` is called with the global namespace.
abbrev pub loop_context : Context
loop_context = record { ns = global_ns; frame = frame_proc; scope = 0; class = [] }

abbrev pub bound_at_one : Command → ℕ → List Definition
bound_at_one c base =
    target_def (λ t. local_def def_local [] no_context (moved base t)) (base_at_one c)

unfoldable pub set_bindings : Command → ℕ → List Definition
unfolding is_cmd array_base_name
set_bindings c base = if is_cmd c (codes "set") then bound_at_one c base else []

unfoldable pub rmw_bindings : Command → ℕ → List Definition
unfolding is_cmd array_base_name
rmw_bindings c base = if is_rmw c then bound_at_one c base else []

unfoldable pub variable_bindings : Command → ℕ → List Definition
unfolding is_cmd
variable_bindings c base =
    if is_cmd c (codes "variable")
    then one_def (λ w. local_def def_local [] no_context (name_at w base)) (plain_at_one c)
    else []

unfoldable pub global_bindings : Command → ℕ → List Definition
unfolding is_cmd global_links
global_bindings c base =
    if is_cmd c (codes "global") then global_links (drop 1 c) base no_context else []

unfoldable pub upvar_bindings : Command → ℕ → List Definition
unfolding is_cmd upvar_args
upvar_bindings c base =
    if is_cmd c (codes "upvar") && leb 3 (length c)
    then upvar_args (drop 1 c) base no_context
    else []

unfoldable pub loop_bindings : Command → ℕ → Option (List Definition)
unfolding loop_var_words var_list_names
loop_bindings c base =
    Option.map (λ ws. local_defs loop_context (flatten (map (var_list_names base) ws)))
      (loop_var_words c)

-- `none` is the panic of `emitLoopVarDefs`.
unfoldable pub local_bindings : Command → ℕ → Option (List Definition)
unfolding set_bindings rmw_bindings variable_bindings global_bindings upvar_bindings loop_bindings
local_bindings c base =
    Option.map
      (λ loops.
        set_bindings c base
        ++ (rmw_bindings c base
            ++ (variable_bindings c base
                ++ (global_bindings c base ++ (upvar_bindings c base ++ loops)))))
      (loop_bindings c base)
