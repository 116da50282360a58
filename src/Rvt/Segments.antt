-- ===== src/Rvt/Segments.antt =====
-- The offset map of an extracted document: sorted in both coordinates, inside both texts, and
-- over equal bytes.
use tcl_lsp_nvim.Base.{
  ℕ, zero, suc, ◌+◌, ◌≤◌, ◌<◌, List, [], ◌∷◌, ◌++◌, ◌≡◌, refl, sym, ap, ◌∙◌, Option, none, some,
  arith, Bytes, codes, length, take, drop, index_of, All, All-mono, All-append, get_elem?,
  get_elem?-append_left, get_elem?-append_right, get_elem?-drop, get_elem?-take, length-append,
  length-drop, length-take-le, length-take-le_length, drop-add,
}
use tcl_lsp_nvim.Rvt.{
  Segment, Document, add_region, extract_loop, extract, ns_prefix, ns_suffix, Loop, close_tag,
  open_tag, code_offset,
}

-- A segment maps a part of the script to an equal part of the source.
pub record IsCopy (src script : Bytes) (sg : Segment) : Type 0 where
  pub in_script : sg.virt_off + sg.len ≤ length script
  pub in_source : sg.src_off + sg.len ≤ length src
  pub not_empty : 0 < sg.len
  pub same :
      (k : ℕ) → k < sg.len → get_elem? script (sg.virt_off + k) ≡ get_elem? src (sg.src_off + k)

-- In order and disjoint, in both coordinates, from `v` and `s` on.
abbrev pub AreSorted : ℕ → ℕ → List Segment → Type 0
AreSorted v s [] = Unit
AreSorted v s (sg ∷ segs) =
    (v ≤ sg.virt_off)
    × (s ≤ sg.src_off)
    × AreSorted (sg.virt_off + sg.len) (sg.src_off + sg.len) segs

abbrev EndsBy : ℕ → ℕ → Segment → Type 0
EndsBy v s sg = (sg.virt_off + sg.len ≤ v) × (sg.src_off + sg.len ≤ s)

-- The loop's invariant at offset `i`.
record IsMapped (src : Bytes) (i : ℕ) (d : Document) : Type 0 where
  copies : All (IsCopy src d.script) d.mapping
  sorted : AreSorted 0 0 d.mapping
  ends : All (EndsBy (length d.script) i) d.mapping

AreSorted-concat :
    (v s v' s' : ℕ) (segs : List Segment) (sg : Segment)
    → AreSorted v s segs
    → All (EndsBy v' s') segs
    → v ≤ v'
    → s ≤ s'
    → v' ≤ sg.virt_off
    → s' ≤ sg.src_off
    → AreSorted v s (segs ++ sg ∷ [])
AreSorted-concat v s v' s' [] sg o e hv hs h k = (omega arith, omega arith, tt)
AreSorted-concat v s v' s' (x ∷ segs) sg o e hv hs h k = (
  o.0,
  o.1,
  AreSorted-concat (x.virt_off + x.len) (x.src_off + x.len) v' s' segs sg o.2 e.1 e.0.0 e.0.1 h k,
)

IsCopy-append :
    (src script more : Bytes) (sg : Segment) → IsCopy src script sg → IsCopy src (script ++ more) sg
IsCopy-append src script more sg c = record {
  in_script = omega (arith, c.in_script, length-append script more);
  in_source = c.in_source;
  not_empty = c.not_empty;
  same = λ k h.
      get_elem?-append_left script more (sg.virt_off + k) (omega (arith, c.in_script)) ∙ c.same k h;
}

-- `region` stands in the source at `start`.
record StandsAt (src : Bytes) (start : ℕ) (region : Bytes) : Type 0 where
  fits : 0 < length region → start + length region ≤ length src
  same : (k : ℕ) → k < length region → get_elem? region k ≡ get_elem? src (start + k)

IsCopy-region :
    (src script : Bytes) (start c : ℕ) (cs : Bytes)
    → StandsAt src start (c ∷ cs)
    → IsCopy src
        (script ++ ((c ∷ cs) ++ b'\n' ∷ []))
        (record { virt_off = length script; src_off = start; len = length (c ∷ cs) })
IsCopy-region src script start c cs r = record {
  in_script =
      omega (arith, length-append script ((c ∷ cs) ++ b'\n' ∷ []), length-append cs (b'\n' ∷ []));
  in_source = r.fits (omega arith);
  not_empty = omega arith;
  same = λ k h.
      get_elem?-append_right script ((c ∷ cs) ++ b'\n' ∷ []) k
      ∙ get_elem?-append_left (c ∷ cs) (b'\n' ∷ []) k h
      ∙ r.same k h;
}

IsMapped-later :
    {src : Bytes} {i : ℕ} {d : Document} (j : ℕ) → i ≤ j → IsMapped src i d → IsMapped src j d
IsMapped-later {src} {i} {d} j h m = record {
  copies = m.copies;
  sorted = m.sorted;
  ends =
      All-mono (EndsBy (length d.script) i) (EndsBy (length d.script) j) d.mapping
        (λ sg e. omega arith) m.ends;
}

add_region-IsMapped :
    (src : Bytes) (i start : ℕ) (region : Bytes) (d : Document)
    → IsMapped src i d
    → i ≤ start
    → StandsAt src start region
    → IsMapped src (start + length region) (add_region start region d)
add_region-IsMapped src i start [] d m h r = IsMapped-later (start + 0) (omega arith) m
add_region-IsMapped src i start (c ∷ cs) d m h r =
    let more = (c ∷ cs) ++ b'\n' ∷ [] in
    let sg : Segment = record {
      virt_off = length d.script;
      src_off = start;
      len = length (c ∷ cs);
    } in
    let size = length-append d.script more in
    let size' = length-append cs (b'\n' ∷ []) in
    record {
      copies =
          All-append (IsCopy src (d.script ++ more)) d.mapping (sg ∷ [])
            (All-mono (IsCopy src d.script) (IsCopy src (d.script ++ more)) d.mapping
              (IsCopy-append src d.script more) m.copies)
            (IsCopy-region src d.script start c cs r, tt);
      sorted =
          AreSorted-concat 0 0 (length d.script) i d.mapping sg m.sorted m.ends (omega arith)
            (omega arith) (omega arith) h;
      ends =
          All-append (EndsBy (length (d.script ++ more)) (start + length (c ∷ cs))) d.mapping
            (sg ∷ [])
            (All-mono (EndsBy (length d.script) i)
              (EndsBy (length (d.script ++ more)) (start + length (c ∷ cs))) d.mapping
              (λ sg e. omega arith) m.ends)
            ((omega arith, omega arith), tt);
    }

StandsAt-take : (src : Bytes) (start n : ℕ) → StandsAt src start (take n (drop start src))
StandsAt-take src start n = record {
  fits = λ h. omega (arith, length-take-le_length n (drop start src), length-drop start src);
  same = λ k h.
      get_elem?-take n k (drop start src) (omega (arith, length-take-le n (drop start src)))
      ∙ get_elem?-drop start k src;
}

StandsAt-drop : (src : Bytes) (start : ℕ) → StandsAt src start (drop start src)
StandsAt-drop src start = record {
  fits = λ h. omega (arith, length-drop start src);
  same = λ k h. get_elem?-drop start k src;
}

pub record IsExtracted (src : Bytes) (d : Document) : Type 0 where
  pub copies : All (IsCopy src d.script) d.mapping
  pub sorted : AreSorted 0 0 d.mapping

drop_on : (src rest : Bytes) (i n : ℕ) → rest ≡ drop i src → drop n rest ≡ drop (i + n) src
drop_on src rest i n e = ap (drop n) e ∙ sym (drop-add i n src)

-- What the rest of the loop has to keep, whatever it is.
Keeps : Bytes → Loop → Type 0
Keeps src next =
    (i : ℕ) (rest : Bytes) (d : Document)
    → rest ≡ drop i src
    → IsMapped src i d
    → IsExtracted src (next i rest d)

finished : {src : Bytes} {i : ℕ} {d : Document} → IsMapped src i d → IsExtracted src d
finished m = record { copies = m.copies; sorted = m.sorted }

close_tag-IsExtracted :
    (src : Bytes) (next : Loop) (i start : ℕ) (code : Bytes) (rel : Option ℕ) (d : Document)
    → Keeps src next
    → i ≤ start
    → code ≡ drop start src
    → IsMapped src i d
    → IsExtracted src (close_tag next start code rel d)
unfolding close_tag Keeps
close_tag-IsExtracted src next i start code none d k h e m =
    finished (add_region-IsMapped src i start code d m h (rw e (StandsAt-drop src start)))
close_tag-IsExtracted src next i start code (some rel) d k h e m =
    k (start + rel + 2) (drop (rel + 2) code) (add_region start (take rel code) d)
      (drop_on src code start (rel + 2) e ∙ ap (λ n. drop n src) (omega arith))
      (IsMapped-later (start + rel + 2) (omega (arith, length-take-le rel code)) (
        add_region-IsMapped src i start (take rel code) d m h (rw e (StandsAt-take src start rel))))

extract_loop-Keeps : (src : Bytes) (fuel : ℕ) → Keeps src (extract_loop fuel)
unfolding extract_loop open_tag Keeps
extract_loop-Keeps src fuel i [] d e m = finished m
extract_loop-Keeps src zero i (c ∷ rest) d e m = finished m
extract_loop-Keeps src (suc fuel) i (c ∷ rest) d e m =
    turn (code_offset (c ∷ rest)) (extract_loop-Keeps src fuel)
  where
    turn :
        (off : Option ℕ)
        → Keeps src (extract_loop fuel)
        → IsExtracted src (open_tag (extract_loop fuel) i (c ∷ rest) off d)
    turn none k = finished m
    turn (some off) k =
        close_tag-IsExtracted src (extract_loop fuel) i (i + off) (drop off (c ∷ rest))
          (index_of (drop off (c ∷ rest)) (codes "?>")) d k (omega arith)
          (drop_on src (c ∷ rest) i off e) m

-- The map of every extracted document is sorted, its segments are not empty and lie inside both
-- texts, and each is a verbatim copy.
pub extract-IsExtracted : (src : Bytes) → IsExtracted src (extract src)
unfolding extract Keeps
extract-IsExtracted src = record {
  copies =
      All-mono (IsCopy src d.script) (IsCopy src (d.script ++ ns_suffix)) d.mapping
        (IsCopy-append src d.script ns_suffix) body.copies;
  sorted = body.sorted;
}
  where
    d : Document
    d = extract_loop (length src) 0 src (record { script = ns_prefix; mapping = [] })

    body : IsExtracted src d
    body =
        extract_loop-Keeps src (length src) 0 src _ refl
          (record { copies = tt; sorted = tt; ends = tt })
