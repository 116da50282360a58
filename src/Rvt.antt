-- ===== src/Rvt.antt =====
-- server/internal/rvt/rvt.go: Rivet templates extracted to a TCL script with an offset map. The
-- loop of `Extract` holds `i`; here it is handed `src[i:]` too. `none` stands for -1 (and for
-- `ok == false`), and the search for the first segment is what `sort.Search` does on a sorted map.
pub mod Segments
pub mod Templates
pub mod RoundTrip
use mathlib.Core.Option
use tcl_lsp_nvim.Base.{
  ℕ, zero, suc, ◌+◌, ◌-◌, Bool, true, false, List, [], ◌∷◌, ◌++◌, Option, none, some, ltb, leb,
  if◌then◌else◌, Bytes, codes, length, take, drop, index_of, has_prefix,
}

pub record Segment : Type 0 where
  pub virt_off : ℕ
  pub src_off : ℕ
  pub len : ℕ

pub record Document : Type 0 where
  pub script : Bytes
  pub mapping : List Segment

unfoldable pub source_in : List Segment → ℕ → Option ℕ
source_in [] v = none
source_in (sg ∷ segs) v =
    if ltb v (sg.virt_off + sg.len)
    then (if leb sg.virt_off v then some (sg.src_off + (v - sg.virt_off)) else none)
    else source_in segs v

unfoldable pub virtual_in : List Segment → ℕ → Option ℕ
virtual_in [] s = none
virtual_in (sg ∷ segs) s =
    if ltb s (sg.src_off + sg.len)
    then (if leb sg.src_off s then some (sg.virt_off + (s - sg.src_off)) else none)
    else virtual_in segs s

abbrev pub to_source : Document → ℕ → Option ℕ
to_source d = source_in d.mapping

abbrev pub to_virtual : Document → ℕ → Option ℕ
to_virtual d = virtual_in d.mapping

abbrev pub ns_prefix : Bytes
ns_prefix = codes "namespace eval ::request {\n"

abbrev pub ns_suffix : Bytes
ns_suffix = codes "}\n"

-- What the loop does with one region: nothing if it is empty.
abbrev pub add_region : ℕ → Bytes → Document → Document
add_region start [] d = d
add_region start (c ∷ cs) d = record {
  script = d.script ++ ((c ∷ cs) ++ b'\n' ∷ []);
  mapping =
      d.mapping
      ++ record { virt_off = length d.script; src_off = start; len = length (c ∷ cs) } ∷ [];
}

-- The `=` of `<?=`, which is skipped.
abbrev pub marker : Bytes → ℕ
marker code = if has_prefix code (codes "=") then 1 else 0

-- Where the code behind the next `<?` or `<?=` begins: `codeStart - i`.
unfoldable pub code_offset : Bytes → Option ℕ
unfolding index_of
code_offset rest =
    Option.map (λ open'. open' + 2 + marker (drop (open' + 2) rest)) (index_of rest (codes "<?"))

abbrev pub Loop : Type 0
Loop = ℕ → Bytes → Document → Document

-- The end of a turn at a tag whose code begins at `start`; `rel` is where `?>` stands in `code`.
unfoldable pub close_tag : Loop → ℕ → Bytes → Option ℕ → Document → Document
close_tag next start code none d = add_region start code d
close_tag next start code (some rel) d =
    next (start + rel + 2) (drop (rel + 2) code) (add_region start (take rel code) d)

-- A turn of the loop of `Extract`, with `next` for the turns behind it.
unfoldable pub open_tag : Loop → ℕ → Bytes → Option ℕ → Document → Document
unfolding close_tag index_of
open_tag next i rest none d = d
open_tag next i rest (some off) d =
    let code = drop off rest in close_tag next (i + off) code (index_of code (codes "?>")) d

unfoldable pub extract_loop : ℕ → Loop
unfolding open_tag code_offset
extract_loop fuel i [] d = d
extract_loop zero i (c ∷ rest) d = d
extract_loop (suc fuel) i (c ∷ rest) d =
    open_tag (extract_loop fuel) i (c ∷ rest) (code_offset (c ∷ rest)) d

abbrev pub close_wrapper : Document → Document
close_wrapper d = record d { script = d.script ++ ns_suffix }

unfoldable pub extract : Bytes → Document
unfolding extract_loop
extract src =
    close_wrapper (extract_loop (length src) 0 src (record { script = ns_prefix; mapping = [] }))
