-- ===== src/Tests/Workspaces.antt =====
-- Name resolution over a small workspace.
use mathlib.Core.List.{Memᴰ}
use tcl_lsp_nvim.Base.{
  ◌&&◌, ℕ, ◌+◌, List, [], ◌∷◌, ◌≡◌, ◌≢◌, ◌⊎◌, refl, none, some, if◌then◌else◌, Bytes, codes, length,
  eql, All,
}
use tcl_lsp_nvim.Assoc.{Assoc, lookup, find_or}
use tcl_lsp_nvim.Syntax.{global_ns, frame_proc}
use tcl_lsp_nvim.Refs.{ref_command}
use tcl_lsp_nvim.Defs.{def_proc, def_method}
use tcl_lsp_nvim.Files.{ContextRef}
use tcl_lsp_nvim.Index.{Location, ClassInfo}
use tcl_lsp_nvim.Resolve.{
  is_command, has_sites, Workspace, command_candidates, candidates, lookup_scoped, ref_fq,
}
use tcl_lsp_nvim.Resolve.Members.{method_in_class, search, find_member, methods_called}
use tcl_lsp_nvim.Resolve.Locals.{innermost}
use tcl_lsp_nvim.Resolve.Targets.{in_method, ref_sites, target_references, use_site}
use tcl_lsp_nvim.Resolve.Inherited.{own, Inherits}
use tcl_lsp_nvim.Resolve.Explored.{find_member-Inherits}
use tcl_lsp_nvim.Resolve.Candidates.{Covers, command_candidates-Covers, ref_sites-ref_fq}
use tcl_lsp_nvim.Resolve.Nearest.{IsNearest, innermost-IsNearest}
use tcl_lsp_nvim.Resolve.Sites.{IsSiteOf, ref_sites-IsSiteOf}
use tcl_lsp_nvim.Resolve.Uses.{HasUse, IsUse, kind, target_references-HasUse}

abbrev page : Bytes
page = codes "a.rvt"

abbrev site : Bytes → Bytes → Location
site file name = record { file = file; name = name; kind = def_proc; name_start = 5; name_end = 6 }

abbrev run_site : Location
run_site = record {
  file = codes "c.tcl";
  name = codes "run";
  kind = def_method;
  name_start = 30;
  name_end = 33;
}

-- Two classes that inherit from one another; the second has a method.
abbrev ring : Assoc ClassInfo
ring =
    (codes "::A", record { def_sites = []; methods = []; ivars = []; inherit = codes "::B" ∷ [] })
    ∷ (
      codes "::B",
      record {
        def_sites = [];
        methods = (codes "run", run_site ∷ []) ∷ [];
        ivars = [];
        inherit = codes "::A" ∷ [];
      },
    )
    ∷ []

find_member-ring : find_member ring (methods_called (codes "run")) (codes "::A") ≡ run_site ∷ []
unfolding search find_or
find_member-ring = refl

find_member-missing : find_member ring (methods_called (codes "stop")) (codes "::A") ≡ []
unfolding search find_or
find_member-missing = refl

find_member-Inherits_example :
    ((d : Bytes) × Inherits ring (methods_called (codes "run")) (codes "::A") d
      × (find_member ring (methods_called (codes "run")) (codes "::A") ≢ [])
      × (find_member ring (methods_called (codes "run")) (codes "::A")
          ≡ own ring (methods_called (codes "run")) (lookup d ring)))
    ⊎ ((find_member ring (methods_called (codes "run")) (codes "::A") ≡ [])
        × ((d : Bytes)
            → Inherits ring (methods_called (codes "run")) (codes "::A") d
            → own ring (methods_called (codes "run")) (lookup d ring) ≡ []))
find_member-Inherits_example =
    find_member-Inherits ring (methods_called (codes "run")) (codes "::A")

abbrev use_at : Bytes → ℕ → ContextRef
use_at name start = record {
  ref = record { kind = ref_command; name = name; start = start; end = start + length name };
  context = record { ns = global_ns; frame = frame_proc; scope = 0; class = codes "::A" };
}

-- Two pages with a helper of one name, and a script with a proc.
abbrev site_ws : Workspace
site_ws = record {
  lookup_fq = λ name.
      if eql name (codes "::request::h")
      then site page (codes "::request::h") ∷ site (codes "b.rvt") (codes "::request::h") ∷ []
      else if eql name (codes "::f")
      then site (codes "c.tcl") (codes "::f") ∷ []
      else [];
  classes = ring;
  namespace = λ ns. record { path = codes "::util" ∷ []; imports = codes "::lib::*" ∷ [] };
  files = page ∷ codes "b.rvt" ∷ [];
  refs_of = λ f. use_at (codes "::request::h") 20 ∷ use_at (codes "f") 40 ∷ [];
}

command_candidates-bare :
    command_candidates site_ws (codes "f") (codes "::n")
    ≡ codes "::n::f" ∷ codes "::lib::f" ∷ codes "::util::f" ∷ codes "::f" ∷ []
unfolding command_candidates
command_candidates-bare = refl

command_candidates-Covers_example :
    Covers site_ws (codes "f") (codes "::n") (command_candidates site_ws (codes "f") (codes "::n"))
command_candidates-Covers_example = command_candidates-Covers site_ws (codes "f") (codes "::n")

has_candidate : candidates site_ws (use_at (codes "f") 9) ≢ []
unfolding candidates
has_candidate e = cc

ref_sites-ref_fq_example : ref_sites site_ws page (some (use_at (codes "f") 9)) ≡ (
    if (is_command ref_command && in_method (use_at (codes "f") 9))
      && has_sites (method_in_class site_ws (codes "::A") (codes "f"))
    then method_in_class site_ws (codes "::A") (codes "f")
    else lookup_scoped site_ws (ref_fq site_ws (use_at (codes "f") 9) page) page)
ref_sites-ref_fq_example = ref_sites-ref_fq site_ws (use_at (codes "f") 9) page has_candidate

lookup_scoped-page :
    lookup_scoped site_ws (codes "::request::h") page ≡ site page (codes "::request::h") ∷ []
unfolding lookup_scoped
lookup_scoped-page = refl

ref_sites-method : ref_sites site_ws page (some (use_at (codes "run") 9)) ≡ run_site ∷ []
unfolding ref_sites
ref_sites-method = refl

ref_sites-IsSiteOf_example :
    All
      (IsSiteOf site_ws page (use_at (codes "::request::h") 9))
      (ref_sites site_ws page (some (use_at (codes "::request::h") 9)))
ref_sites-IsSiteOf_example = ref_sites-IsSiteOf site_ws page (use_at (codes "::request::h") 9)

innermost-IsNearest_example :
    IsNearest 9
      (use_at (codes "long") 7 ∷ use_at (codes "f") 9 ∷ [])
      (innermost 9 (use_at (codes "long") 7 ∷ use_at (codes "f") 9 ∷ []) none)
innermost-IsNearest_example =
    innermost-IsNearest 9 (use_at (codes "long") 7 ∷ use_at (codes "f") 9 ∷ [])

abbrev live : List ContextRef
live = use_at (codes "f") 9 ∷ []

target_references-HasUse_example :
    All (HasUse site_ws page (codes "::f") live) (target_references site_ws page live (codes "::f"))
    × ((f : Bytes) (r : ContextRef)
        → codes "::f" ≢ []
        → IsUse site_ws page (codes "::f") live f r
        → Memᴰ
            (use_site site_ws (codes "::f") (kind site_ws page (codes "::f") live) f r)
            (target_references site_ws page live (codes "::f")))
target_references-HasUse_example = target_references-HasUse site_ws page (codes "::f") live
