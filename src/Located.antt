-- ===== src/Located.antt =====
-- Where a piece of text stands in a larger one: the offsets that the walkers carry.
use mathlib.Core.Path.{subst₂}
use tcl_lsp_nvim.Base.{
  ℕ, ◌+◌, ◌-◌, ◌≤◌, [], ◌++◌, ◌≡◌, sym, ap, ◌∙◌, arith, Bytes, length, take, drop, length-take,
  subst, append_assoc, append-nil, length-append, length-drop, drop-add, drop-append, take-append,
  take-append-drop,
}
use tcl_lsp_nvim.Scanner.Ranges.{IsRange}

-- `text` stands in `src` at `pos`.
pub record Located (src : Bytes) (pos : ℕ) (text : Bytes) : Type 0 where
  pub rest : Bytes
  pub splits : drop pos src ≡ text ++ rest
  pub within : pos + length text ≤ length src

pub Located-all : (src : Bytes) → Located src 0 src
Located-all src = record { rest = []; splits = sym (append-nil src); within = omega arith }

pub Located-append :
    (src : Bytes) (pos : ℕ) (a b : Bytes)
    → Located src pos (a ++ b)
    → Located src (pos + length a) b
Located-append src pos a b l = record {
  rest = l.rest;
  splits =
      drop-add pos (length a) src
      ∙ ap (drop (length a)) (l.splits ∙ append_assoc a b l.rest)
      ∙ drop-append a (b ++ l.rest);
  within = omega (arith, l.within, length-append a b);
}

pub Located-front :
    (src : Bytes) (pos : ℕ) (a b : Bytes) → Located src pos (a ++ b) → Located src pos a
Located-front src pos a b l = record {
  rest = b ++ l.rest;
  splits = l.splits ∙ append_assoc a b l.rest;
  within = omega (arith, l.within, length-append a b);
}

pub Located-drop :
    (src : Bytes) (pos n : ℕ) (text : Bytes)
    → n ≤ length text
    → Located src pos text
    → Located src (pos + n) (drop n text)
Located-drop src pos n text h l =
    subst (λ m. Located src (pos + m) (drop n text)) (length-take n text h)
      (Located-append src pos (take n text) (drop n text) (rw take-append-drop l))

pub Located-take :
    (src : Bytes) (pos n : ℕ) (text : Bytes) → Located src pos text → Located src pos (take n text)
Located-take src pos n text l =
    Located-front src pos (take n text) (drop n text) (rw (take-append-drop) l)

-- A range inside located text is located.
pub Located-IsRange :
    (src : Bytes) (pos a b : ℕ) (text u : Bytes)
    → Located src pos text
    → IsRange text a b u
    → Located src (pos + a) u
Located-IsRange src pos a b text u l r =
    rw r.sliced (
      Located-take src (pos + a) (b - a) (drop a text)
        (Located-drop src pos a text (omega arith) l))

pub IsRange-Located :
    (src : Bytes) (pos : ℕ) (text : Bytes)
    → Located src pos text
    → IsRange src pos (pos + length text) text
IsRange-Located src pos text l = record {
  ordered = omega arith;
  within = l.within;
  sliced =
      let m : pos + length text - pos ≡ length text = omega arith in rw (m, l.splits, take-append);
}

pub length-IsRange :
    (src : Bytes) (a b : ℕ) (text : Bytes) → IsRange src a b text → length text ≡ b - a
length-IsRange src a b text r =
    ap length r.sliced ∙ length-take (b - a) (drop a src) (omega (arith, length-drop a src))

-- A range inside located text, in the offsets of the whole.
pub IsRange-shift :
    (src : Bytes) (base a b : ℕ) (text u : Bytes)
    → Located src base text
    → IsRange text a b u
    → IsRange src (a + base) (b + base) u
IsRange-shift src base a b text u l r =
    let size = length-IsRange text a b u r in
    subst₂ (λ m n. IsRange src m n u) (omega arith) (omega arith)
      (IsRange-Located src (base + a) u (Located-IsRange src base a b text u l r))
