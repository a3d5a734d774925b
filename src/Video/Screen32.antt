-- ===== src/Video/Screen32.antt =====
-- emulation/tcc1014graphics.cpp: the cases of the switch of `UpdateScreen32`, one definition for each
-- group of labels. The name of a graphics mode says the bits of a pixel and how often it is
-- repeated.
use Prim.Native.Nat.{bit_and}
use cutiecoco.Base.{ℕ, ◌^◌, ◌+◌, ◌-◌, ◌*◌, ◌/◌, ◌%◌, ◌&&◌, ◌==◌, if◌then◌else◌, map}
use cutiecoco.Base.Bits.{bit}
use cutiecoco.Video.{Video, Host}
use cutiecoco.Video.Raster.{Cursor, u32, video_array, words, stretched, ones, twos, fours}
use cutiecoco.Video.Cases.{
  Case, case_of, width_80, width_40, unfinished_text, width_32, plain_1x1, plain_1x2, plain_1x4,
  plain_1x8, plain_2x1, plain_2x2, plain_2x4, plain_2x8, plain_2x16, plain_4x1, plain_4x2,
  plain_4x4, plain_4x8, plain_4x16, compat_1x1, compat_1x4, compat_1x8, compat_2x1, compat_2x2,
  compat_2x4, compat_2x8, compat_2x16, artifacts, plain_3, compat_rest,
}
use cutiecoco.Video.Text.{cells, vdg_cells}
use cutiecoco.Video.Artifacts.{afacts_32, pmode4_mon_type, artifact_words}
use cutiecoco.Video.Borders.{side_borders}
use cutiecoco.Video.Lines.{begin_line, first_cursor, end_line}
use cutiecoco.Video.Ntsc.{render_pmode4_ntsc, get_palette_type, palette_ntsc}

module _ (v : Video) (h : Host) where
  -- The palette, and the palette from `PalleteIndex` on.
  abbrev pub plain : ℕ → ℕ
  plain i = v.pallete_32bit i

  abbrev pub compat : ℕ → ℕ
  compat i = v.pallete_32bit (v.pallete_index + i)

  unfoldable pub draw_plain_1x1 : Cursor → Cursor
  draw_plain_1x1 = words video_array v h (λ w. map plain (stretched 1 (ones w)))

  unfoldable pub draw_plain_1x2 : Cursor → Cursor
  draw_plain_1x2 = words video_array v h (λ w. map plain (stretched 2 (ones w)))

  unfoldable pub draw_plain_1x4 : Cursor → Cursor
  draw_plain_1x4 = words video_array v h (λ w. map plain (stretched 4 (ones w)))

  unfoldable pub draw_plain_1x8 : Cursor → Cursor
  draw_plain_1x8 = words video_array v h (λ w. map plain (stretched 8 (ones w)))

  unfoldable pub draw_plain_2x1 : Cursor → Cursor
  draw_plain_2x1 = words video_array v h (λ w. map plain (stretched 1 (twos w)))

  unfoldable pub draw_plain_2x2 : Cursor → Cursor
  draw_plain_2x2 = words video_array v h (λ w. map plain (stretched 2 (twos w)))

  unfoldable pub draw_plain_2x4 : Cursor → Cursor
  draw_plain_2x4 = words video_array v h (λ w. map plain (stretched 4 (twos w)))

  unfoldable pub draw_plain_2x8 : Cursor → Cursor
  draw_plain_2x8 = words video_array v h (λ w. map plain (stretched 8 (twos w)))

  unfoldable pub draw_plain_2x16 : Cursor → Cursor
  draw_plain_2x16 = words video_array v h (λ w. map plain (stretched 16 (twos w)))

  unfoldable pub draw_plain_4x1 : Cursor → Cursor
  draw_plain_4x1 = words video_array v h (λ w. map plain (stretched 1 (fours w)))

  unfoldable pub draw_plain_4x2 : Cursor → Cursor
  draw_plain_4x2 = words video_array v h (λ w. map plain (stretched 2 (fours w)))

  unfoldable pub draw_plain_4x4 : Cursor → Cursor
  draw_plain_4x4 = words video_array v h (λ w. map plain (stretched 4 (fours w)))

  unfoldable pub draw_plain_4x8 : Cursor → Cursor
  draw_plain_4x8 = words video_array v h (λ w. map plain (stretched 8 (fours w)))

  unfoldable pub draw_plain_4x16 : Cursor → Cursor
  draw_plain_4x16 = words video_array v h (λ w. map plain (stretched 16 (fours w)))

  unfoldable pub draw_compat_1x1 : Cursor → Cursor
  draw_compat_1x1 = words video_array v h (λ w. map compat (stretched 1 (ones w)))

  unfoldable pub draw_compat_1x4 : Cursor → Cursor
  draw_compat_1x4 = words video_array v h (λ w. map compat (stretched 4 (ones w)))

  unfoldable pub draw_compat_1x8 : Cursor → Cursor
  draw_compat_1x8 = words video_array v h (λ w. map compat (stretched 8 (ones w)))

  unfoldable pub draw_compat_2x1 : Cursor → Cursor
  draw_compat_2x1 = words video_array v h (λ w. map compat (stretched 1 (twos w)))

  unfoldable pub draw_compat_2x2 : Cursor → Cursor
  draw_compat_2x2 = words video_array v h (λ w. map compat (stretched 2 (twos w)))

  unfoldable pub draw_compat_2x4 : Cursor → Cursor
  draw_compat_2x4 = words video_array v h (λ w. map compat (stretched 4 (twos w)))

  unfoldable pub draw_compat_2x8 : Cursor → Cursor
  draw_compat_2x8 = words video_array v h (λ w. map compat (stretched 8 (twos w)))

  unfoldable pub draw_compat_2x16 : Cursor → Cursor
  draw_compat_2x16 = words video_array v h (λ w. map compat (stretched 16 (twos w)))

  abbrev pub fetch : ℕ → ℕ
  fetch a = h.ram_buffer a

  -- With a horizontal offset the text of 80 columns is fetched without the attributes' share.
  unfoldable pub text_start : Video
  text_start =
      if bit v.horz_offset_reg 7
      then record v { start = u32 (v.start_of_vidram + v.tag_y / v.lines_per_row * v.vpitch) }
      else v

  unfoldable pub draw_width_80 : Cursor → Cursor
  unfolding text_start
  draw_width_80 = cells plain fetch text_start h video_array 1

  unfoldable pub draw_width_40 : Cursor → Cursor
  draw_width_40 = cells plain fetch v h video_array 2

  unfoldable pub draw_width_32 : Cursor → Cursor
  draw_width_32 = vdg_cells plain fetch v h video_array

  -- `RenderPMODE4NTSC` takes the line over with the palette of that name.
  unfoldable pub draw_ntsc : Cursor → Cursor
  draw_ntsc c = record c {
    surface =
        render_pmode4_ntsc v h
          (((h.line_counter + v.vert_center) * 2 * h.surface_pitch + v.horz_center + 2 ^ 64 - 2)
            % 2 ^ 64)
          (bit_and v.vid_mask (u32 (v.start + v.hoffset))) c.surface;
  }

  unfoldable pub draw_artifacts : Cursor → Cursor
  unfolding draw_ntsc
  draw_artifacts c =
      let white = v.border_color_32 == 0xffffff in
      if (pmode4_mon_type v == 0) && (white && (get_palette_type == palette_ntsc))
      then draw_ntsc c
      else artifact_words video_array v h afacts_32 white compat c

  -- The switch. The labels 3 to 63, 176 to 191 and 224 to 255 return at once.
  unfoldable pub draw : Case → Cursor → Cursor
  draw width_80 = draw_width_80
  draw width_40 = draw_width_40
  draw unfinished_text = λ c. c
  draw width_32 = draw_width_32
  draw plain_1x1 = draw_plain_1x1
  draw plain_1x2 = draw_plain_1x2
  draw plain_1x4 = draw_plain_1x4
  draw plain_1x8 = draw_plain_1x8
  draw plain_2x1 = draw_plain_2x1
  draw plain_2x2 = draw_plain_2x2
  draw plain_2x4 = draw_plain_2x4
  draw plain_2x8 = draw_plain_2x8
  draw plain_2x16 = draw_plain_2x16
  draw plain_4x1 = draw_plain_4x1
  draw plain_4x2 = draw_plain_4x2
  draw plain_4x4 = draw_plain_4x4
  draw plain_4x8 = draw_plain_4x8
  draw plain_4x16 = draw_plain_4x16
  draw compat_1x1 = draw_compat_1x1
  draw artifacts = draw_artifacts
  draw compat_1x4 = draw_compat_1x4
  draw compat_1x8 = draw_compat_1x8
  draw compat_2x1 = draw_compat_2x1
  draw compat_2x2 = draw_compat_2x2
  draw compat_2x4 = draw_compat_2x4
  draw compat_2x8 = draw_compat_2x8
  draw compat_2x16 = draw_compat_2x16
  draw plain_3 = λ c. c
  draw compat_rest = λ c. c

-- `UpdateScreen32`.
unfoldable pub update_screen : Video → Host → Video × Host
update_screen v h =
    let line = begin_line v h in
    let framed = side_borders video_array v.border_color_32 h v h.surface in
    end_line 32 line h (draw line h (case_of v.master_mode) (first_cursor 32 v h framed))
