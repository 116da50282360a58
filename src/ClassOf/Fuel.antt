-- ===== src/ClassOf/Fuel.antt =====
-- The fuel of `gather_classes` is enough: it satisfies the recursion of `walkCmds` itself.
use mathlib.Core.Path.{fun_ext}
use tcl_lsp_nvim.Base.{ℕ, List, [], ◌∷◌, map, ◌≡◌, refl, ap, ◌∙◌, Bytes, length, All}
use tcl_lsp_nvim.Parser.{Command, parse}
use tcl_lsp_nvim.Parser.Words.{IsWordOf, parse-IsWordOf}
use tcl_lsp_nvim.Bodies.{child_bodies}
use tcl_lsp_nvim.Defs.{Definition}
use tcl_lsp_nvim.Nesting.{nested_lem}
use tcl_lsp_nvim.Reaching.{Script, script_size, body_script, proc_at}
use tcl_lsp_nvim.Reaching.Pieces.{IsBelow, child_scripts-IsBelow}
use tcl_lsp_nvim.ClassOf.{Gather, class_scripts, class_cmds, class_script, gather_classes}

module _ (wanted : List Definition) (text : Bytes) (rec rec' : Script → Gather)
    (agree : (p : Script) → IsBelow (length text) p → rec p ≡ rec' p) where
  class_scripts-Agree :
      (ps : List Script) (classes : List Bytes)
      → All (IsBelow (length text)) ps
      → class_scripts rec ps classes ≡ class_scripts rec' ps classes
  unfolding class_scripts
  class_scripts-Agree [] classes h = refl
  class_scripts-Agree (p ∷ ps) classes (h, hs) =
      ap (λ f. class_scripts rec ps (f classes)) (agree p h)
      ∙ class_scripts-Agree ps (rec' p classes) hs

  class_cmds-Agree :
      (base : ℕ) (cmds : List Command) (classes : List Bytes)
      → All (All (IsWordOf text)) cmds
      → class_cmds wanted rec base cmds classes ≡ class_cmds wanted rec' base cmds classes
  unfolding class_cmds
  class_cmds-Agree base [] classes h = refl
  class_cmds-Agree base (c ∷ cmds) classes (h, hs) =
      ap (class_cmds wanted rec base cmds) (
        class_scripts-Agree (map body_script (child_bodies c base (proc_at base))) _
          (child_scripts-IsBelow text base c h))
      ∙ class_cmds-Agree base cmds _ hs

-- `gather_classes` is the recursion of `walkCmds` with no fuel in it.
pub gather_classes_lem :
    (wanted : List Definition) (p : Script)
    → gather_classes wanted p ≡ class_script wanted (gather_classes wanted) p
unfolding gather_classes class_script
gather_classes_lem wanted = nested_lem script_size _ (class_script wanted) λ p rec rec' agree.
    fun_ext λ classes.
      class_cmds-Agree wanted p.text rec rec' agree p.base (parse p.text) classes
        (parse-IsWordOf p.text)
