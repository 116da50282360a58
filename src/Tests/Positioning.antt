-- ===== src/Tests/Positioning.antt =====
-- Positions in small texts.
use tcl_lsp_nvim.Base.{ℕ, ◌≡◌, refl, arith, Bytes, codes}
use tcl_lsp_nvim.Position.{byte_offset, lsp_position}
use tcl_lsp_nvim.Position.RoundTrip.{newlines, here, on, IsRuneStart, byte_offset-lsp_position}

-- The decoder on ASCII text.
abbrev ascii : Bytes → ℕ × ℕ
ascii s = (1, 1)

abbrev two_lines : Bytes
two_lines = codes "ab\ncd"

position_two_lines : lsp_position ascii two_lines 4 ≡ (1, 1)
unfolding lsp_position
position_two_lines = refl

four-IsRuneStart : IsRuneStart ascii two_lines 4
unfolding newlines byte_offset
four-IsRuneStart = on (omega arith) (omega arith) refl here

byte_offset-lsp_position_example :
    byte_offset ascii two_lines
      (lsp_position ascii two_lines 4).0
      (lsp_position ascii two_lines 4).1
    ≡ 4
byte_offset-lsp_position_example =
    byte_offset-lsp_position ascii two_lines 4 (omega arith) four-IsRuneStart
