-- ===== src/Video/Text.antt =====
-- emulation/tcc1014graphics.cpp: the cells of the text modes in `UpdateScreen8`, `UpdateScreen16`
-- and `UpdateScreen32`. `fetch` reads the byte at an address that the code computes; `color` is
-- the palette.
use cutiecoco.Base.{ℕ, ◌+◌, ◌-◌, ◌*◌, ◌/◌, ◌%◌, ◌&&◌, List, [], ◌∷◌, map, ltb, ◌==◌, if◌then◌else◌}
use cutiecoco.Base.Bits.{u8, bit}
use cutiecoco.Video.{Video, Host}
use cutiecoco.Video.Raster.{Cursor, u32, rounds, beams, block, stretched}

-- The eight bits of a row of a glyph, in the two colours of `TextPallete`.
unfoldable pub glyph_row : (background foreground pixel : ℕ) → List ℕ
glyph_row background foreground pixel =
    map (λ k. if bit pixel k then foreground else background) (7 ∷ 6 ∷ 5 ∷ 4 ∷ 3 ∷ 2 ∷ 1 ∷ 0 ∷ [])

-- `Start+(unsigned char)(HorzBeam+Hoffset)`.
abbrev pub cell_address : Video → ℕ → ℕ
cell_address v beam = u32 (v.start + u8 (beam + v.hoffset))

module _ (color fetch : ℕ → ℕ) (v : Video) (h : Host) where
  -- The attributes of the cell, which are 0 without the second byte.
  unfoldable pub attributes : ℕ → ℕ
  attributes beam = if v.extended_text == 2 then fetch (u32 (cell_address v beam + 1)) else 0

  -- The row of the glyph, underlined or blinked out.
  unfoldable pub styled : (beam glyph : ℕ) → ℕ
  unfolding attributes
  styled beam glyph =
      if v.extended_text == 2 && ((v.blink_state == 0) && bit (attributes beam) 7)
      then 0
      else if v.extended_text == 2
          && (bit (attributes beam) 6 && (h.line_counter % v.lines_per_row == v.lines_per_row - 1))
      then 255
      else glyph

  -- One cell of the modes of 80 and of 40 columns.
  unfoldable pub cell : ℕ → List ℕ
  unfolding attributes styled glyph_row
  cell beam =
      let character = fetch (cell_address v beam) in
      let glyph = h.cc3_fontdata (character * 12 + h.line_counter % v.lines_per_row) in
      glyph_row (color (attributes beam % 8)) (color (8 + attributes beam / 8 % 8))
        (styled beam glyph)

  -- Their loop, which draws every pixel of a cell `repeat` times.
  unfoldable pub cells : (element : ℕ → ℕ) (repeat : ℕ) → Cursor → Cursor
  cells element repeat =
      beams (rounds (v.bytes_per_row * v.extended_text) v.extended_text) 0 v.extended_text
        (λ beam. block element h (stretched repeat (cell beam)))

  -- One cell of the mode of 32 columns, with the alphanumeric and the graphic characters of the
  -- MC6847.
  unfoldable pub vdg_cell : ℕ → List ℕ
  unfolding glyph_row
  vdg_cell beam =
      let byte = fetch (cell_address v beam) in
      let line = h.line_counter % 12 in
      let character = byte % 64 in
      let background = color v.text_bg_pallete in
      let foreground = color v.text_fg_pallete in
      if byte / 64 == 0
      then (if (v.lower_case % 2 == 1) && ltb character 32
          then glyph_row background foreground
              (h.ntsc_round_fontdata ((character + 80) * 12 + line))
          else glyph_row background foreground
              (255 - h.ntsc_round_fontdata (character * 12 + line)))
      else if byte / 64 == 1
      then glyph_row background foreground (h.ntsc_round_fontdata (character * 12 + line))
      else glyph_row (color 8) (color (byte / 16 % 8))
          (h.ntsc_round_fontdata ((64 + byte % 16) * 12 + line))

  unfoldable pub vdg_cells : (element : ℕ → ℕ) → Cursor → Cursor
  vdg_cells element =
      beams (rounds v.bytes_per_row 1) 0 1 (λ beam. block element h (stretched 2 (vdg_cell beam)))
