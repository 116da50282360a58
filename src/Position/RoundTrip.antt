-- ===== src/Position/RoundTrip.antt =====
-- `ByteOffset` against `LSPPosition`.
use mathlib.Core.Path.{ap₂}
use tcl_lsp_nvim.Base.{
  ℕ, zero, suc, ◌+◌, ◌-◌, ◌≤◌, ◌<◌, true, false, ◌||◌, [], ◌∷◌, ◌≡◌, refl, sym, ap, ◌∙◌, arith,
  ◌==◌, if◌then◌else◌, if_cases, Bytes, length, drop, subst, Bool-cases, inl, inr,
}
use tcl_lsp_nvim.Position.{
  skip_lines, find_line, skip_units, count_units, clamp, byte_offset, lsp_position,
}

-- The newlines among the first `n` bytes.
unfoldable pub newlines : ℕ → Bytes → ℕ
newlines zero s = 0
newlines (suc n) [] = 0
newlines (suc n) (c ∷ s) = let more = newlines n s in if c == b'\n' then suc more else more

find_line-newlines :
    (n i line start : ℕ) (s : Bytes) → (find_line n i line start s).0 ≡ line + newlines n s
unfolding find_line newlines
find_line-newlines zero i line start s = omega arith
find_line-newlines (suc n) i line start [] = omega arith
find_line-newlines (suc n) i line start (c ∷ s) = ground (
  arith,
  find_line-newlines n (suc i) (suc line) (suc i) s,
  find_line-newlines n (suc i) line start s,
)

-- The bytes in front of the line that the offset `n` is on.
abbrev pub line_bytes : ℕ → Bytes → ℕ
line_bytes n s = skip_lines (newlines n s) s

skip_lines-other :
    (k c : ℕ) (s : Bytes)
    → (c == b'\n') ≡ false
    → skip_lines k (c ∷ s) ≡ (if k == 0 then 0 else suc (skip_lines k s))
unfolding skip_lines
skip_lines-other zero c s e = refl
skip_lines-other (suc k) c s e = ground arith

skip_lines-newline :
    (k c : ℕ) (s : Bytes) → (c == b'\n') ≡ true → skip_lines (suc k) (c ∷ s) ≡ suc (skip_lines k s)
unfolding skip_lines
skip_lines-newline k c s e = rw e refl

line_bytes-newline :
    (n c : ℕ) (s : Bytes) → (c == b'\n') ≡ true → line_bytes (suc n) (c ∷ s) ≡ suc (line_bytes n s)
unfolding newlines skip_lines
line_bytes-newline n c s e = rw e (skip_lines-newline (newlines n s) c s e)

line_bytes-other :
    (n c : ℕ) (s : Bytes)
    → (c == b'\n') ≡ false
    → line_bytes (suc n) (c ∷ s) ≡ (if newlines n s == 0 then 0 else suc (line_bytes n s))
unfolding newlines
line_bytes-other n c s e = rw e (skip_lines-other (newlines n s) c s e)

skip_lines-zero : (k : ℕ) (s : Bytes) → k ≡ 0 → skip_lines k s ≡ 0
unfolding skip_lines
skip_lines-zero k s e = rw e refl

start_newline :
    (k i b start : ℕ)
    → (k ≡ 0 → b ≡ 0)
    → (if k == 0 then suc i else suc i + b) ≡ (if suc k == 0 then start else i + suc b)
start_newline k i b start h = ground arith

start_other :
    (k i b start : ℕ)
    → (if k == 0 then start else suc i + b)
      ≡ (if k == 0 then start else i + (if k == 0 then 0 else suc b))
start_other k i b start = ground arith

find_line-start :
    (n i line : ℕ) (start : ℕ) (s : Bytes)
    → (find_line n i line start s).1 ≡ (if newlines n s == 0 then start else i + line_bytes n s)
unfolding find_line newlines
find_line-start zero i line start s = refl
find_line-start (suc n) i line start [] = refl
find_line-start (suc n) i line start (c ∷ s) = elim (Bool-cases (c == b'\n')) [
  | inl e ↦
      let ih = find_line-start n (suc i) (suc line) (suc i) s in
      let lb = line_bytes-newline n c s e in
      rw (lb, e)
        (ih
          ∙ start_newline (newlines n s) i (line_bytes n s) start
              (skip_lines-zero (newlines n s) s))
  | inr e ↦
      let ih = find_line-start n (suc i) line start s in
      let lb = line_bytes-other n c s e in
      rw (lb, e) (ih ∙ start_other (newlines n s) i (line_bytes n s) start)
]

line_bytes-le : (n : ℕ) (s : Bytes) → line_bytes n s ≤ n
unfolding newlines skip_lines
line_bytes-le zero s = omega arith
line_bytes-le (suc n) [] = omega arith
line_bytes-le (suc n) (c ∷ s) = elim (Bool-cases (c == b'\n')) [
  | inl e ↦ omega (arith, line_bytes-newline n c s e, line_bytes-le n s)
  | inr e ↦ ground (arith, line_bytes-other n c s e, line_bytes-le n s)
]

sub-zero : (n : ℕ) → n ≡ n - 0
sub-zero n = omega arith

sub-suc : (n k : ℕ) → suc n - suc k ≡ n - k
sub-suc n k = omega arith

newlines-nil : (n : ℕ) → newlines n [] ≡ 0
unfolding newlines
newlines-nil zero = refl
newlines-nil (suc n) = refl

-- No newline stands between the start of the line and the offset.
newlines-line_bytes :
    (n : ℕ) (s : Bytes) → newlines (n - line_bytes n s) (drop (line_bytes n s) s) ≡ 0
unfolding newlines skip_lines
newlines-line_bytes zero s = refl
newlines-line_bytes (suc n) [] = newlines-nil (suc n - 0)
newlines-line_bytes (suc n) (c ∷ s) = elim (Bool-cases (c == b'\n')) [
  | inl e ↦ rw (line_bytes-newline n c s e, sub-suc n (line_bytes n s)) (newlines-line_bytes n s)
  | inr e ↦ elim (Bool-cases (newlines n s == 0)) [
    | inl z ↦
        let at_zero : line_bytes (suc n) (c ∷ s) ≡ 0 = line_bytes-other n c s e ∙ rw z refl in
        rw at_zero
          (subst (λ k. newlines k (c ∷ s) ≡ 0) (sub-zero (suc n)) (rw e (ground (arith, z))))
    | inr z ↦
        let later : line_bytes (suc n) (c ∷ s) ≡ suc (line_bytes n s) =
          line_bytes-other n c s e ∙ rw z refl in
        rw (later, sub-suc n (line_bytes n s)) (newlines-line_bytes n s)
  ]
]

-- The offsets of a line that the decoder stops at, from `k` bytes on; each rune has a code unit, and
-- lies inside the text.
pub data IsBoundary (decode : Bytes → ℕ × ℕ) : ℕ → Bytes → Type 0 where
  here : {s : Bytes} → IsBoundary decode 0 s
  on :
      {n m : ℕ} {c : ℕ} {s : Bytes}
      → 0 < (decode (c ∷ s)).0
      → 0 < (decode (c ∷ s)).1
      → n ≡ (decode (c ∷ s)).1 + m
      → IsBoundary decode m (drop (decode (c ∷ s)).1 (c ∷ s))
      → IsBoundary decode n (c ∷ s)

newlines-drop : (a m n : ℕ) (s : Bytes) → n ≡ a + m → newlines n s ≡ 0 → newlines m (drop a s) ≡ 0
unfolding newlines
newlines-drop zero m n s e h = subst (λ k. newlines k s ≡ 0) (omega arith) h
newlines-drop (suc a) m n [] e h = newlines-nil m
newlines-drop (suc a) m zero (c ∷ s) e h = absurd (omega arith)
newlines-drop (suc a) m (suc n) (c ∷ s) e h = newlines-drop a m n s (omega arith) (ground arith)

newlines-first : (n c : ℕ) (s : Bytes) → newlines (suc n) (c ∷ s) ≡ 0 → (c == b'\n') ≡ false
unfolding newlines
newlines-first n c s h = ground arith

find_line-all :
    (src : Bytes) (offset : ℕ)
    → find_line offset 0 0 0 src ≡ (newlines offset src, line_bytes offset src)
find_line-all src offset =
    ap₂ (λ a b. (a, b)) (find_line-newlines offset 0 0 0 src ∙ omega arith)
      (find_line-start offset 0 0 0 src
        ∙ if_cases (λ x. x ≡ line_bytes offset src) (newlines offset src == 0) 0
            (0 + line_bytes offset src)
            (λ z. sym (skip_lines-zero (newlines offset src) src (ground (arith, z))))
            λ _. omega arith)

clamp-le : (src : Bytes) (offset : ℕ) → offset ≤ length src → clamp src offset ≡ offset
clamp-le src offset h = ground arith

module _ (decode : Bytes → ℕ × ℕ) where
  skip_units-count_units :
      (f g n : ℕ) (s : Bytes)
      → IsBoundary decode n s
      → newlines n s ≡ 0
      → n ≤ f
      → n ≤ g
      → skip_units decode f (count_units decode g n s) s ≡ n
  unfolding skip_units count_units
  skip_units-count_units f g n [] here z hf hg = refl
  skip_units-count_units zero g n (c ∷ s) here z hf hg = refl
  skip_units-count_units (suc f) g n (c ∷ s) here z hf hg = refl
  skip_units-count_units f g zero (c ∷ s) (on u p e b) z hf hg = absurd (omega arith)
  skip_units-count_units zero g (suc n) (c ∷ s) (on u p e b) z hf hg = absurd (omega arith)
  skip_units-count_units (suc f) zero (suc n) (c ∷ s) (on u p e b) z hf hg = absurd (omega arith)
  skip_units-count_units (suc f) (suc g) (suc n) (c ∷ s) (on {m = m} u p e b) z hf hg =
      let size = (decode (c ∷ s)).1 in
      let units = (decode (c ∷ s)).0 in
      let rest = drop size (c ∷ s) in
      let left : suc n - size ≡ m = omega arith in
      let ih =
        skip_units-count_units f g m rest b (newlines-drop size m (suc n) (c ∷ s) e z) (omega arith)
          (omega arith) in
      let more = count_units decode g (suc n - size) rest in
      let back : units + more - units ≡ more = omega arith in
      let other = newlines-first n c s z in
      if_cases (λ x. x ≡ suc n) (units + more == 0 || c == b'\n') _ _
        (λ h. absurd (ground (arith, other, h, u)))
        λ _.
          ap (λ k. size + skip_units decode f k rest)
            (back ∙ ap (λ k. count_units decode g k rest) left)
          ∙ ap (λ k. size + k) ih
          ∙ sym e

  -- The rune boundary that `LSPPosition` asks for: the decoder comes to `offset` from the line's start.
  abbrev pub IsRuneStart : Bytes → ℕ → Type 0
  IsRuneStart src offset =
      IsBoundary decode (offset - line_bytes offset src) (drop (line_bytes offset src) src)

  position_of : Bytes → ℕ → ℕ → ℕ × ℕ → ℕ × ℕ
  position_of src offset fuel p = (p.0, count_units decode fuel (offset - p.1) (drop p.1 src))

  lsp_position_lem :
      (src : Bytes) (offset : ℕ)
      → offset ≤ length src
      → lsp_position decode src offset ≡ (
        newlines offset src,
        count_units decode
            (length src)
            (offset - line_bytes offset src)
            (drop (line_bytes offset src) src),
      )
  unfolding lsp_position position_of
  lsp_position_lem src offset h =
      ap (λ o. position_of src o (length src) (find_line o 0 0 0 src)) (clamp-le src offset h)
      ∙ ap (position_of src offset (length src)) (find_line-all src offset)

  -- If an offset lies in the text or at its end, and the decoder comes to it from the start of its line
  -- by runes of at least one byte and one code unit, then the position of the offset is converted back
  -- to that offset.
  pub byte_offset-lsp_position :
      (src : Bytes) (offset : ℕ)
      → offset ≤ length src
      → IsRuneStart src offset
      → byte_offset decode src (lsp_position decode src offset).0 (lsp_position decode src offset).1
        ≡ offset
  unfolding byte_offset
  byte_offset-lsp_position src offset h b =
      let start = line_bytes offset src in
      let le = line_bytes-le offset src in
      ap (λ p. byte_offset decode src p.0 p.1) (lsp_position_lem src offset h)
      ∙ ap (λ n. start + n)
          (skip_units-count_units (length src) (length src) (offset - start) (drop start src) b
            (newlines-line_bytes offset src) (omega arith) (omega arith))
      ∙ omega arith
