-- ===== src/Tests/Templating.antt =====
-- The template extractor at small templates.
use tcl_lsp_nvim.Base.{
  true, false, List, [], ◌∷◌, ◌++◌, ◌≡◌, ◌↔◌, inl, inr, some, none, refl, arith, Bytes, codes,
  has_prefix,
}
use tcl_lsp_nvim.Rvt.{to_source, to_virtual, source_in, virtual_in, extract, ns_prefix, ns_suffix}
use tcl_lsp_nvim.Rvt.Segments.{IsExtracted, extract-IsExtracted}
use tcl_lsp_nvim.Rvt.RoundTrip.{to_source-iff-to_virtual}
use tcl_lsp_nvim.Rvt.Templates.{Part, template, lines, script-extract-template}

abbrev page : Bytes
page = codes "<p><? set x 1 ?></p><?= $x"

extract-page : (extract page).script ≡ codes "namespace eval ::request {\n set x 1 \n $x\n}\n"
unfolding extract
extract-page = refl

maps-page :
    (to_source (extract page) 28 ≡ some 6)
    × (to_source (extract page) 3 ≡ none)
    × (to_virtual (extract page) 6 ≡ some 28)
    × (to_virtual (extract page) 1 ≡ none)
unfolding extract source_in virtual_in
maps-page = (refl, refl, refl, refl)

extract-IsExtracted_example : IsExtracted page (extract page)
extract-IsExtracted_example = extract-IsExtracted page

to_source-iff-to_virtual_example :
    (to_source (extract page) 28 ≡ some 6) ↔ (to_virtual (extract page) 6 ≡ some 28)
to_source-iff-to_virtual_example = to_source-iff-to_virtual page 28 6

abbrev parts : List Part
parts =
    record { literal = codes "ab"; expression = false; code = codes "x" }
    ∷ record { literal = []; expression = true; code = codes "=y" }
    ∷ []

script-extract-template_example :
    (extract (template parts (codes "end"))).script ≡ ns_prefix ++ (lines parts ++ ns_suffix)
script-extract-template_example =
    script-extract-template parts (codes "end")
      (
        record {
          no_tag = omega arith;
          no_end = omega arith;
          unmarked = inr (unfold has_prefix in refl);
        },
        (record { no_tag = omega arith; no_end = omega arith; unmarked = inl refl }, tt),
      )
      (omega arith)
