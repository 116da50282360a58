-- ===== src/Rvt/Templates.antt =====
-- Templates written from their parts, and what `Extract` makes of them.
use tcl_lsp_nvim.Base.{
  ℕ, zero, suc, ◌+◌, ◌≤◌, Bool, true, false, List, [], ◌∷◌, ◌++◌, ◌≡◌, ◌≢◌, ◌⊎◌, refl, sym, ap, ◌∙◌,
  some, none, arith, if◌then◌else◌, Bytes, codes, length, index_of, has_prefix, All, append_assoc,
  append-nil, length-append, take-append, drop-append, drop-add,
}
use tcl_lsp_nvim.Rvt.{
  Document, add_region, marker, Loop, close_tag, open_tag, code_offset, extract_loop, extract,
  ns_prefix, ns_suffix,
}

-- Literal text, and the tag behind it: whether it is `<?=`, and its code.
pub record Part : Type 0 where
  pub literal : Bytes
  pub expression : Bool
  pub code : Bytes

-- The literal text has no `<`, the code has no `?`, and code in `<?` begins with no `=`.
pub record IsPlain (p : Part) : Type 0 where
  pub no_tag : All (λ c. c ≢ b'<') p.literal
  pub no_end : All (λ c. c ≢ b'?') p.code
  pub unmarked : (p.expression ≡ true) ⊎ (has_prefix p.code (codes "=") ≡ false)

abbrev mark : Bool → Bytes
mark b = if b then codes "=" else []

pub template : List Part → Bytes → Bytes
template [] tail = tail
template (p ∷ parts) tail =
    p.literal
    ++ (b'<' ∷ b'?' ∷ (mark p.expression ++ (p.code ++ (b'?' ∷ b'>' ∷ template parts tail))))

abbrev line : Bytes → Bytes
line [] = []
line (c ∷ cs) = (c ∷ cs) ++ b'\n' ∷ []

-- The code of each tag on a line of its own; empty code makes no line.
pub lines : List Part → Bytes
lines [] = []
lines (p ∷ parts) = line p.code ++ lines parts

index_of_pair :
    (a b : ℕ) (s t : Bytes)
    → All (λ c. c ≢ a) s
    → index_of (s ++ (a ∷ b ∷ t)) (a ∷ b ∷ []) ≡ some (length s)
unfolding index_of
index_of_pair a b [] t h = ground arith
index_of_pair a b (c ∷ s) t (h, hs) = ground (arith, index_of_pair a b s t hs)

index_of_absent : (a b : ℕ) (s : Bytes) → All (λ c. c ≢ a) s → index_of s (a ∷ b ∷ []) ≡ none
unfolding index_of
index_of_absent a b [] h = refl
index_of_absent a b (c ∷ s) (h, hs) = ground (arith, index_of_absent a b s hs)

marker-mark :
    (e : Bool) (code rest : Bytes)
    → (e ≡ true) ⊎ (has_prefix code (codes "=") ≡ false)
    → marker (mark e ++ (code ++ (b'?' ∷ rest))) ≡ length (mark e)
unfolding has_prefix
marker-mark true code rest h = refl
marker-mark false [] rest h = refl
marker-mark false (c ∷ code) rest h = ground arith

code_offset-part :
    (p : Part) (rest : Bytes)
    → IsPlain p
    → code_offset (p.literal ++ (b'<' ∷ b'?' ∷ (mark p.expression ++ (p.code ++ (b'?' ∷ rest)))))
      ≡ some (length p.literal + 2 + length (mark p.expression))
unfolding code_offset
code_offset-part p rest h =
    rw (index_of_pair b'<' b'?' p.literal (mark p.expression ++ (p.code ++ (b'?' ∷ rest))) h.no_tag)
      (rw (
        drop-add (length p.literal) 2,
        drop-append,
        marker-mark p.expression p.code rest h.unmarked,
      ))

extract_loop-cons :
    (fuel i : ℕ) (s : Bytes) (d : Document)
    → s ≢ []
    → extract_loop (suc fuel) i s d ≡ open_tag (extract_loop fuel) i s (code_offset s) d
unfolding extract_loop
extract_loop-cons fuel i [] d ne = absurd (ne refl)
extract_loop-cons fuel i (c ∷ s) d ne = refl

script-add_region :
    (start : ℕ) (code : Bytes) (d : Document)
    → (add_region start code d).script ≡ d.script ++ line code
script-add_region start [] d = sym (append-nil d.script)
script-add_region start (c ∷ cs) d = refl

open_tag-part :
    (next : Loop) (i : ℕ) (p : Part) (rest : Bytes) (d : Document)
    → IsPlain p
    → (j : ℕ) × (open_tag next i
          (p.literal ++ (b'<' ∷ b'?' ∷ (mark p.expression ++ (p.code ++ (b'?' ∷ b'>' ∷ rest)))))
          (some (length p.literal + 2 + length (mark p.expression)))
          d
        ≡ next j rest
            (add_region (i + (length p.literal + 2 + length (mark p.expression))) p.code d))
unfolding open_tag close_tag
open_tag-part next i p rest d h = (
  i + (length p.literal + 2 + length (mark p.expression)) + length p.code + 2,
  rw (
    drop-add (length p.literal + 2),
    drop-add (length p.literal) 2,
    drop-append,
    drop-append,
    index_of_pair b'?' b'>' p.code rest h.no_end,
    drop-add (length p.code) 2,
    drop-append,
    take-append,
  ),
)

part-ne-nil : (s : Bytes) (x : ℕ) (t : Bytes) → s ++ (x ∷ t) ≢ []
part-ne-nil [] x t = λ e. cc
part-ne-nil (y ∷ s) x t = λ e. cc

extract_loop-template :
    (parts : List Part) (tail : Bytes) (fuel i : ℕ) (d : Document)
    → All IsPlain parts
    → All (λ c. c ≢ b'<') tail
    → length (template parts tail) ≤ fuel
    → (extract_loop fuel i (template parts tail) d).script ≡ d.script ++ lines parts
unfolding template lines
extract_loop-template [] [] fuel i d h t le = unfold extract_loop in sym (append-nil d.script)
extract_loop-template [] (c ∷ tail) zero i d h t le = absurd (omega arith)
extract_loop-template [] (c ∷ tail) (suc fuel) i d h t le =
    rw (extract_loop-cons fuel i (c ∷ tail) d (λ e. cc)) (
      unfold code_offset open_tag in
      rw (index_of_absent b'<' b'?' (c ∷ tail) t) (sym (append-nil d.script)))
extract_loop-template (p ∷ parts) tail zero i d h t le = absurd (
    omega (
      arith,
      length-append p.literal
          (b'<' ∷ b'?' ∷ (mark p.expression ++ (p.code ++ (b'?' ∷ b'>' ∷ template parts tail)))),
    ))
extract_loop-template (p ∷ parts) tail (suc fuel) i d (h, hs) t le =
    let rest = template parts tail in
    let tagged = mark p.expression ++ (p.code ++ (b'?' ∷ b'>' ∷ rest)) in
    let (j, turn) = open_tag-part (extract_loop fuel) i p rest d h in
    let start = i + (length p.literal + 2 + length (mark p.expression)) in
    rw
      (
        extract_loop-cons fuel i (p.literal ++ (b'<' ∷ b'?' ∷ tagged)) d
            (part-ne-nil p.literal b'<' (b'?' ∷ tagged)),
        code_offset-part p (b'>' ∷ rest) h,
        turn,
      )
      (extract_loop-template parts tail fuel j (add_region start p.code d) hs t (
          omega (
            arith,
            length-append p.literal (b'<' ∷ b'?' ∷ tagged),
            length-append (mark p.expression) (p.code ++ (b'?' ∷ b'>' ∷ rest)),
            length-append p.code (b'?' ∷ b'>' ∷ rest),
          ))
        ∙ ap (λ s. s ++ lines parts) (script-add_region start p.code d)
        ∙ append_assoc d.script (line p.code) (lines parts))

-- The script of a template is the wrapper round the code of its tags, one below the other: no
-- tag is missed, no literal text gets in, and `<?=` counts as `<?`.
pub script-extract-template :
    (parts : List Part) (tail : Bytes)
    → All IsPlain parts
    → All (λ c. c ≢ b'<') tail
    → (extract (template parts tail)).script ≡ ns_prefix ++ (lines parts ++ ns_suffix)
unfolding extract
script-extract-template parts tail h t =
    ap (λ s. s ++ ns_suffix)
      (extract_loop-template parts tail (length (template parts tail)) 0
        (record { script = ns_prefix; mapping = [] }) h t (omega arith))
    ∙ append_assoc ns_prefix (lines parts) ns_suffix
