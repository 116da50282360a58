-- ===== src/Source/Coordinates.antt =====
-- Where the references and the folds of a file stand, in the coordinates of the file.
use mathlib.Core.Option
use tcl_lsp_nvim.Base.{
  ℕ, ◌+◌, ◌-◌, ◌<◌, Bool, true, false, List, [], ◌∷◌, ◌≡◌, refl, ap, Option, some, none, Bytes,
  length, get_elem?, All, if◌then◌else◌,
}
use tcl_lsp_nvim.Rvt.{to_source, extract}
use tcl_lsp_nvim.Rvt.RoundTrip.{to_source-same}
use tcl_lsp_nvim.Refs.Located.{IsRefAt}
use tcl_lsp_nvim.Files.{ContextRef, file_refs}
use tcl_lsp_nvim.Files.Located.{IsContextRefAt, file_refs-IsRefAt}
use tcl_lsp_nvim.Source.{is_rvt, source_refs, kept, refs}

-- A reference of a template: a reference of the script, with its start translated, its length
-- and the rest kept. The byte at its start is the one that the script has there.
pub record IsTemplateRef (content : Bytes) (r : ContextRef) : Type 0 where
  pub original : ContextRef
  pub in_script : IsRefAt (extract content).script original.ref
  pub start : to_source (extract content) original.ref.start ≡ some r.ref.start
  pub end : r.ref.end ≡ r.ref.start + (original.ref.end - original.ref.start)
  pub name : r.ref.name ≡ original.ref.name
  pub within : r.ref.start < length content
  pub same_byte :
      get_elem? (extract content).script original.ref.start ≡ get_elem? content r.ref.start

source_ref-All :
    (content : Bytes) (r : ContextRef) (rs : List ContextRef) (o : Option ℕ)
    → to_source (extract content) r.ref.start ≡ o
    → IsRefAt (extract content).script r.ref
    → All (IsTemplateRef content) rs
    → All (IsTemplateRef content) (
        kept
          (Option.map
            (λ s. record r {
              ref = record r.ref { start = s; end = s + (r.ref.end - r.ref.start) };
            })
            o)
          rs)
source_ref-All content r rs none e h hs = hs
source_ref-All content r rs (some s) e h hs =
    let (_, w, b) = to_source-same content r.ref.start s e in
    (
      record {
        original = r;
        in_script = h;
        start = e;
        end = refl;
        name = refl;
        within = w;
        same_byte = b;
      },
      hs,
    )

source_refs-All :
    (content : Bytes) (rs : List ContextRef)
    → All (IsContextRefAt (extract content).script) rs
    → All (IsTemplateRef content) (source_refs (extract content) rs)
unfolding source_refs
source_refs-All content [] h = tt
source_refs-All content (r ∷ rs) (h, hs) =
    source_ref-All content r (source_refs (extract content) rs) _ refl h
      (source_refs-All content rs hs)

-- What is asked of a reference, by the kind of its file.
abbrev pub IsSourceRef : Bool → Bytes → ContextRef → Type 0
IsSourceRef true content r = IsTemplateRef content r
IsSourceRef false content r = IsContextRefAt content r

-- The references of every file have a result. In a template each is a located and spelled
-- reference of the extracted script, its start translated to an offset inside the template
-- where the same byte stands, its length and name kept; in a script each is located and
-- spelled in the file itself.
pub refs-IsSourceRef :
    (path content : Bytes)
    → (rs : List ContextRef) × (refs path content ≡ some rs)
      × All (IsSourceRef (is_rvt path) content) rs
unfolding refs
refs-IsSourceRef path content = by_kind (is_rvt path)
  where
    by_kind :
        (b : Bool)
        → (rs : List ContextRef) × ((if b
              then Option.map (source_refs (extract content)) (file_refs (extract content).script)
              else file_refs content)
            ≡ some rs)
          × All (IsSourceRef b content) rs
    by_kind true =
        let (rs, e, h) = file_refs-IsRefAt (extract content).script in
        (
          source_refs (extract content) rs,
          ap (Option.map (source_refs (extract content))) e,
          source_refs-All content rs h,
        )
    by_kind false = file_refs-IsRefAt content
