-- ===== src/Video/Screen8.antt =====
-- emulation/tcc1014graphics.cpp: the cases of the switch of `UpdateScreen8`, one definition for each
-- group of labels. The name of a graphics mode says the bits of a pixel and how often it is
-- repeated.
use cutiecoco.Base.{ℕ, ◌+◌, ◌==◌, map}
use cutiecoco.Video.{Video, Host}
use cutiecoco.Video.Raster.{Cursor, bare, words, stretched, ones, twos, fours}
use cutiecoco.Video.Cases.{
  Case, case_of, width_80, width_40, unfinished_text, width_32, plain_1x1, plain_1x2, plain_1x4,
  plain_1x8, plain_2x1, plain_2x2, plain_2x4, plain_2x8, plain_2x16, plain_4x1, plain_4x2,
  plain_4x4, plain_4x8, plain_4x16, compat_1x1, compat_1x4, compat_1x8, compat_2x1, compat_2x2,
  compat_2x4, compat_2x8, compat_2x16, artifacts, plain_3, compat_rest,
}
use cutiecoco.Video.Text.{cells, vdg_cells}
use cutiecoco.Video.Artifacts.{afacts_8, artifact_words}
use cutiecoco.Video.Borders.{side_borders}
use cutiecoco.Video.Lines.{begin_line, first_cursor, end_line}

module _ (v : Video) (h : Host) where
  -- The palette, and the palette from `PalleteIndex` on.
  abbrev pub plain : ℕ → ℕ
  plain i = v.pallete_8bit i

  abbrev pub compat : ℕ → ℕ
  compat i = v.pallete_8bit (v.pallete_index + i)

  unfoldable pub draw_plain_1x1 : Cursor → Cursor
  draw_plain_1x1 = words bare v h (λ w. map plain (stretched 1 (ones w)))

  unfoldable pub draw_plain_1x2 : Cursor → Cursor
  draw_plain_1x2 = words bare v h (λ w. map plain (stretched 2 (ones w)))

  unfoldable pub draw_plain_1x4 : Cursor → Cursor
  draw_plain_1x4 = words bare v h (λ w. map plain (stretched 4 (ones w)))

  unfoldable pub draw_plain_1x8 : Cursor → Cursor
  draw_plain_1x8 = words bare v h (λ w. map plain (stretched 8 (ones w)))

  unfoldable pub draw_plain_2x1 : Cursor → Cursor
  draw_plain_2x1 = words bare v h (λ w. map plain (stretched 1 (twos w)))

  unfoldable pub draw_plain_2x2 : Cursor → Cursor
  draw_plain_2x2 = words bare v h (λ w. map plain (stretched 2 (twos w)))

  unfoldable pub draw_plain_2x4 : Cursor → Cursor
  draw_plain_2x4 = words bare v h (λ w. map plain (stretched 4 (twos w)))

  unfoldable pub draw_plain_2x8 : Cursor → Cursor
  draw_plain_2x8 = words bare v h (λ w. map plain (stretched 8 (twos w)))

  unfoldable pub draw_plain_2x16 : Cursor → Cursor
  draw_plain_2x16 = words bare v h (λ w. map plain (stretched 16 (twos w)))

  unfoldable pub draw_plain_4x1 : Cursor → Cursor
  draw_plain_4x1 = words bare v h (λ w. map plain (stretched 1 (fours w)))

  unfoldable pub draw_plain_4x2 : Cursor → Cursor
  draw_plain_4x2 = words bare v h (λ w. map plain (stretched 2 (fours w)))

  unfoldable pub draw_plain_4x4 : Cursor → Cursor
  draw_plain_4x4 = words bare v h (λ w. map plain (stretched 4 (fours w)))

  unfoldable pub draw_plain_4x8 : Cursor → Cursor
  draw_plain_4x8 = words bare v h (λ w. map plain (stretched 8 (fours w)))

  unfoldable pub draw_plain_4x16 : Cursor → Cursor
  draw_plain_4x16 = words bare v h (λ w. map plain (stretched 16 (fours w)))

  unfoldable pub draw_compat_1x1 : Cursor → Cursor
  draw_compat_1x1 = words bare v h (λ w. map compat (stretched 1 (ones w)))

  unfoldable pub draw_compat_1x4 : Cursor → Cursor
  draw_compat_1x4 = words bare v h (λ w. map compat (stretched 4 (ones w)))

  unfoldable pub draw_compat_1x8 : Cursor → Cursor
  draw_compat_1x8 = words bare v h (λ w. map compat (stretched 8 (ones w)))

  unfoldable pub draw_compat_2x1 : Cursor → Cursor
  draw_compat_2x1 = words bare v h (λ w. map compat (stretched 1 (twos w)))

  unfoldable pub draw_compat_2x2 : Cursor → Cursor
  draw_compat_2x2 = words bare v h (λ w. map compat (stretched 2 (twos w)))

  unfoldable pub draw_compat_2x4 : Cursor → Cursor
  draw_compat_2x4 = words bare v h (λ w. map compat (stretched 4 (twos w)))

  unfoldable pub draw_compat_2x8 : Cursor → Cursor
  draw_compat_2x8 = words bare v h (λ w. map compat (stretched 8 (twos w)))

  unfoldable pub draw_compat_2x16 : Cursor → Cursor
  draw_compat_2x16 = words bare v h (λ w. map compat (stretched 16 (twos w)))

  abbrev pub fetch : ℕ → ℕ
  fetch a = h.ram_buffer a

  unfoldable pub draw_width_80 : Cursor → Cursor
  draw_width_80 = cells plain fetch v h bare 1

  unfoldable pub draw_width_40 : Cursor → Cursor
  draw_width_40 = cells plain fetch v h bare 2

  unfoldable pub draw_width_32 : Cursor → Cursor
  draw_width_32 = vdg_cells plain fetch v h bare

  unfoldable pub draw_artifacts : Cursor → Cursor
  draw_artifacts = artifact_words bare v h afacts_8 (v.border_color_8 == 0xff) compat

  -- The switch. The labels 3 to 63, 176 to 191 and 224 to 255 return at once.
  unfoldable pub draw : Case → Cursor → Cursor
  draw width_80 = draw_width_80
  draw width_40 = draw_width_40
  draw unfinished_text = λ c. c
  draw width_32 = draw_width_32
  draw plain_1x1 = draw_plain_1x1
  draw plain_1x2 = draw_plain_1x2
  draw plain_1x4 = draw_plain_1x4
  draw plain_1x8 = draw_plain_1x8
  draw plain_2x1 = draw_plain_2x1
  draw plain_2x2 = draw_plain_2x2
  draw plain_2x4 = draw_plain_2x4
  draw plain_2x8 = draw_plain_2x8
  draw plain_2x16 = draw_plain_2x16
  draw plain_4x1 = draw_plain_4x1
  draw plain_4x2 = draw_plain_4x2
  draw plain_4x4 = draw_plain_4x4
  draw plain_4x8 = draw_plain_4x8
  draw plain_4x16 = draw_plain_4x16
  draw compat_1x1 = draw_compat_1x1
  draw artifacts = draw_artifacts
  draw compat_1x4 = draw_compat_1x4
  draw compat_1x8 = draw_compat_1x8
  draw compat_2x1 = draw_compat_2x1
  draw compat_2x2 = draw_compat_2x2
  draw compat_2x4 = draw_compat_2x4
  draw compat_2x8 = draw_compat_2x8
  draw compat_2x16 = draw_compat_2x16
  draw plain_3 = λ c. c
  draw compat_rest = λ c. c

-- `UpdateScreen8`.
unfoldable pub update_screen : Video → Host → Video × Host
update_screen v h =
    let line = begin_line v h in
    let framed = side_borders bare v.border_color_8 h v h.surface in
    end_line 8 line h (draw line h (case_of v.master_mode) (first_cursor 8 v h framed))
