-- ===== src/Position.antt =====
-- server/internal/lsp/position.go: byte offsets against positions of a line and UTF-16 code units.
-- `utf8.DecodeRuneInString` with `utf16.RuneLen` is a parameter: the code units and the bytes of the
-- first rune of a text. A loop over `src` from `off` on is handed `src[off:]`.
pub mod RoundTrip
use tcl_lsp_nvim.Base.{
  ℕ, zero, suc, ◌+◌, ◌-◌, Bool, ◌||◌, List, [], ◌∷◌, ◌==◌, ltb, if◌then◌else◌, Bytes, length, drop,
}

-- The first loop of `ByteOffset`: the bytes of the first lines.
unfoldable pub skip_lines : ℕ → Bytes → ℕ
skip_lines zero s = 0
skip_lines (suc n) [] = 0
skip_lines (suc n) (c ∷ s) =
    let end = suc (skip_lines n s) in
    let on = suc (skip_lines (suc n) s) in if c == b'\n' then end else on

-- The first loop of `LSPPosition`, with `n` for `offset - i`.
unfoldable pub find_line : ℕ → ℕ → ℕ → ℕ → Bytes → ℕ × ℕ
find_line zero i line start s = (line, start)
find_line (suc n) i line start [] = (line, start)
find_line (suc n) i line start (c ∷ s) =
    let end = find_line n (suc i) (suc line) (suc i) s in
    let on = find_line n (suc i) line start s in if c == b'\n' then end else on

abbrev pub clamp : Bytes → ℕ → ℕ
clamp src offset = if ltb (length src) offset then length src else offset

module _ (decode : Bytes → ℕ × ℕ) where
  -- The second loop of `ByteOffset`, with `k` for `character - u16`, which stops at 0; on fuel.
  unfoldable pub skip_units : ℕ → ℕ → Bytes → ℕ
  skip_units fuel k [] = 0
  skip_units zero k (c ∷ s) = 0
  skip_units (suc fuel) k (c ∷ s) =
      let (units, size) = decode (c ∷ s) in
      let rest = skip_units fuel (k - units) (drop size (c ∷ s)) in
      if k == 0 || c == b'\n' then 0 else size + rest

  -- The second loop of `LSPPosition`, with `n` for `offset - i`, which stops at 0; on fuel.
  unfoldable pub count_units : ℕ → ℕ → Bytes → ℕ
  count_units fuel zero s = 0
  count_units zero (suc n) s = 0
  count_units (suc fuel) (suc n) s =
      let (units, size) = decode s in units + count_units fuel (suc n - size) (drop size s)

  unfoldable pub byte_offset : Bytes → ℕ → ℕ → ℕ
  unfolding skip_lines skip_units
  byte_offset src line character =
      let off = skip_lines line src in off + skip_units (length src) character (drop off src)

  unfoldable pub lsp_position : Bytes → ℕ → ℕ × ℕ
  unfolding find_line count_units
  lsp_position src offset =
      let (line, start) = find_line (clamp src offset) 0 0 0 src in
      (line, count_units (length src) (clamp src offset - start) (drop start src))
