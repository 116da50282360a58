-- ===== src/Rvt/RoundTrip.antt =====
-- `ToSource` and `ToVirtual` against each other and against the two texts.
use tcl_lsp_nvim.Base.{
  ℕ, ◌+◌, ◌-◌, ◌≤◌, ◌<◌, List, [], ◌∷◌, ◌≡◌, some, arith, ◌↔◌, Bytes, length, All, get_elem?,
}
use tcl_lsp_nvim.Rvt.{Segment, source_in, virtual_in, to_source, to_virtual, extract}
use tcl_lsp_nvim.Rvt.Segments.{IsCopy, AreSorted, extract-IsExtracted}

source_in-ge :
    (v s : ℕ) (segs : List Segment) (x y : ℕ)
    → AreSorted v s segs
    → source_in segs x ≡ some y
    → (v ≤ x) × (s ≤ y)
unfolding source_in
source_in-ge v s [] x y o h = cc
source_in-ge v s (sg ∷ segs) x y o h =
    ground (arith, source_in-ge (sg.virt_off + sg.len) (sg.src_off + sg.len) segs x y o.2)

virtual_in-ge :
    (v s : ℕ) (segs : List Segment) (x y : ℕ)
    → AreSorted v s segs
    → virtual_in segs y ≡ some x
    → (v ≤ x) × (s ≤ y)
unfolding virtual_in
virtual_in-ge v s [] x y o h = cc
virtual_in-ge v s (sg ∷ segs) x y o h =
    ground (arith, virtual_in-ge (sg.virt_off + sg.len) (sg.src_off + sg.len) segs x y o.2)

source_in→virtual_in :
    (v s : ℕ) (segs : List Segment) (x y : ℕ)
    → AreSorted v s segs
    → source_in segs x ≡ some y
    → virtual_in segs y ≡ some x
unfolding source_in virtual_in
source_in→virtual_in v s [] x y o h = cc
source_in→virtual_in v s (sg ∷ segs) x y o h = ground (
  arith,
  source_in→virtual_in (sg.virt_off + sg.len) (sg.src_off + sg.len) segs x y o.2,
  source_in-ge (sg.virt_off + sg.len) (sg.src_off + sg.len) segs x y o.2,
)

virtual_in→source_in :
    (v s : ℕ) (segs : List Segment) (x y : ℕ)
    → AreSorted v s segs
    → virtual_in segs y ≡ some x
    → source_in segs x ≡ some y
unfolding source_in virtual_in
virtual_in→source_in v s [] x y o h = cc
virtual_in→source_in v s (sg ∷ segs) x y o h = ground (
  arith,
  virtual_in→source_in (sg.virt_off + sg.len) (sg.src_off + sg.len) segs x y o.2,
  virtual_in-ge (sg.virt_off + sg.len) (sg.src_off + sg.len) segs x y o.2,
)

-- The two offset maps of an extracted template are inverse to each other wherever they are
-- defined: an offset of the script goes to an offset of the template exactly if that goes back.
pub to_source-iff-to_virtual :
    (src : Bytes) (virt s : ℕ)
    → (to_source (extract src) virt ≡ some s) ↔ (to_virtual (extract src) s ≡ some virt)
to_source-iff-to_virtual src virt s =
    let o = (extract-IsExtracted src).sorted in
    (
      source_in→virtual_in 0 0 (extract src).mapping virt s o,
      virtual_in→source_in 0 0 (extract src).mapping virt s o,
    )

source_in-copy :
    (src script : Bytes) (segs : List Segment) (x y : ℕ)
    → All (IsCopy src script) segs
    → source_in segs x ≡ some y
    → (x < length script) × (y < length src) × (get_elem? script x ≡ get_elem? src y)
unfolding source_in
source_in-copy src script [] x y a h = cc
source_in-copy src script (sg ∷ segs) x y (c, a) h =
    ground (arith, c.same (x - sg.virt_off), source_in-copy src script segs x y a)

-- Wherever an offset of the script has an offset in the template, both lie inside their texts
-- and the same byte stands at both.
pub to_source-same :
    (src : Bytes) (virt s : ℕ)
    → to_source (extract src) virt ≡ some s
    → (virt < length (extract src).script)
      × (s < length src)
      × (get_elem? (extract src).script virt ≡ get_elem? src s)
to_source-same src virt s =
    source_in-copy src (extract src).script (extract src).mapping virt s
      (extract-IsExtracted src).copies
