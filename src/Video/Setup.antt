-- ===== src/Video/Setup.antt =====
-- emulation/tcc1014graphics.cpp: `SetupDisplay`, which recomputes the mode of the display after
-- every change of a register, with the tables of tcc1014graphics.h and `SetLinesperScreen` of
-- emulation/coco3.cpp, which it calls.
use Prim.Native.Nat.{bit_and}
use cutiecoco.Base.{ℕ, ◌+◌, ◌-◌, ◌*◌, ◌/◌, ◌%◌, Bool, [], ◌∷◌, ◌==◌, if◌then◌else◌, get_or}
use cutiecoco.Base.Bits.{bit, of_bool}
use cutiecoco.Video.{Video, Scan}

abbrev pub lpf : ℕ → ℕ
lpf i = get_or (192 ∷ 199 ∷ 225 ∷ 225 ∷ []) i 0

abbrev pub vcenter_table : ℕ → ℕ
vcenter_table i = get_or (25 ∷ 19 ∷ 8 ∷ 8 ∷ []) i 0

abbrev pub top_off_screen_table : ℕ → ℕ
top_off_screen_table i = get_or (11 ∷ 14 ∷ 11 ∷ 11 ∷ []) i 0

abbrev pub bottom_off_screen_table : ℕ → ℕ
bottom_off_screen_table i = get_or (5 ∷ 1 ∷ 5 ∷ 5 ∷ []) i 0

-- The static tables of `SetupDisplay`.
abbrev pub cc2_bpp : ℕ → ℕ
cc2_bpp i = get_or (1 ∷ 0 ∷ 1 ∷ 0 ∷ 1 ∷ 0 ∷ 1 ∷ 0 ∷ []) i 0

abbrev pub cc2_lines_per_row : ℕ → ℕ
cc2_lines_per_row i = get_or (12 ∷ 3 ∷ 3 ∷ 2 ∷ 2 ∷ 1 ∷ 1 ∷ 1 ∷ []) i 0

-- The last entry is set to `LinesperScreen` before each use.
abbrev pub cc3_lines_per_row : ℕ → ℕ → ℕ
cc3_lines_per_row last i = get_or (1 ∷ 1 ∷ 2 ∷ 8 ∷ 9 ∷ 10 ∷ 11 ∷ last ∷ []) i 0

abbrev pub cc2_bytes_per_row : ℕ → ℕ
cc2_bytes_per_row i = get_or (16 ∷ 16 ∷ 32 ∷ 16 ∷ 32 ∷ 16 ∷ 32 ∷ 32 ∷ []) i 0

abbrev pub cc3_bytes_per_row : ℕ → ℕ
cc3_bytes_per_row i = get_or (16 ∷ 20 ∷ 32 ∷ 40 ∷ 64 ∷ 80 ∷ 128 ∷ 160 ∷ []) i 0

abbrev pub cc3_bytes_per_text_row : ℕ → ℕ
cc3_bytes_per_text_row i = get_or (32 ∷ 40 ∷ 32 ∷ 40 ∷ 64 ∷ 80 ∷ 64 ∷ 80 ∷ []) i 0

abbrev pub cc2_palette_set : ℕ → ℕ
cc2_palette_set i = get_or (8 ∷ 0 ∷ 10 ∷ 4 ∷ []) i 0

abbrev pub cc_pixels_per_byte : ℕ → ℕ
cc_pixels_per_byte i = get_or (8 ∷ 4 ∷ 2 ∷ 2 ∷ []) i 0

unfoldable pub set_lines_per_screen : ℕ → Scan
set_lines_per_screen lines =
    let k = lines % 4 in
    record {
      lines_per_screen = lpf k;
      top_border = vcenter_table k;
      bottom_border = 239 - (vcenter_table k + lpf k);
      top_off_screen = top_off_screen_table k;
      bottom_off_screen = bottom_off_screen_table k;
    }

-- `case 0` of the switch: Color Computer 3 mode.
unfoldable pub setup_coco3 : Video → Video
setup_coco3 v =
    let graphics = v.cc3_vmode / 128 % 2 in
    let row = v.cc3_vres / 4 % 8 in
    record v {
      new_start_of_vidram = v.vertical_offset_register * 8;
      graphics_mode = graphics;
      vres_index = v.cc3_vres / 32 % 4;
      lines_per_row = cc3_lines_per_row v.lines_per_screen (v.cc3_vmode % 8);
      pallete_index = 0;
      extended_text = if graphics == 0 then (if bit v.cc3_vres 0 then 2 else 1) else 1;
      bpp = if graphics == 0 then 0 else v.cc3_vres % 4;
      bytes_per_row = if graphics == 0 then cc3_bytes_per_text_row row else cc3_bytes_per_row row;
    }

-- The graphics half of `case 1`.
unfoldable pub setup_coco2_graphics : Video → Video
setup_coco2_graphics v =
    let kind = v.cc2_vdg_pia_mode % 16 / 2 in
    record v {
      cc3_border_color = if v.cc2_vdg_pia_mode % 2 == 0 then 18 else 63;
      border_change = 3;
      bpp = cc2_bpp kind;
      bytes_per_row = cc2_bytes_per_row kind;
      pallete_index = cc2_palette_set (v.cc2_vdg_pia_mode % 2 * 2 + cc2_bpp kind % 2);
    }

-- The text half, 32 columns by 16 rows.
unfoldable pub setup_coco2_text : Video → Video
setup_coco2_text v =
    let invert = v.cc2_vdg_pia_mode / 4 % 2 in
    let colors = v.cc2_vdg_pia_mode % 2 * 2 + invert in
    record v {
      bpp = 0;
      bytes_per_row = 32;
      invert_all = invert;
      lower_case = v.cc2_vdg_pia_mode / 2 % 2;
      text_fg_pallete = get_or (12 ∷ 13 ∷ 14 ∷ 15 ∷ []) colors 0;
      text_bg_pallete = get_or (13 ∷ 12 ∷ 15 ∷ 14 ∷ []) colors 0;
    }

-- `VerticalOffsetRegister & 0xE0FF`.
abbrev pub coco2_offset : ℕ → ℕ
coco2_offset register = register / 8192 % 8 * 8192 + register % 256

-- `case 1`: Color Computer 2 mode.
unfoldable pub setup_coco2 : Video → Video
setup_coco2 v =
    let graphics = v.cc2_vdg_pia_mode / 16 % 2 in
    let common = record v {
      extended_text = 1;
      cc3_border_color = 0;
      border_change = 3;
      new_start_of_vidram = 512 * v.cc2_offset + coco2_offset v.vertical_offset_register * 8;
      graphics_mode = graphics;
      vres_index = 0;
      lines_per_row = cc2_lines_per_row v.cc2_vdg_mode;
    } in
    if graphics == 0 then setup_coco2_text common else setup_coco2_graphics common

-- A line of `pixels` is stretched to the window of 640, or to 512 between two borders of 64.
-- `Stretch` is an `unsigned char`, so that `0 - 1` is 255.
abbrev pub fits_width : ℕ → Bool
fits_width pixels = pixels % 40 == 0

abbrev pub stretch_of : ℕ → ℕ
stretch_of pixels = ((if fits_width pixels then 640 / pixels else 512 / pixels) + 255) % 256

abbrev pub horz_center_of : ℕ → ℕ
horz_center_of pixels = if fits_width pixels then 0 else 64

-- What follows the switch.
unfoldable pub setup_common : Video → Video
setup_common v =
    let pixels = v.bytes_per_row * cc_pixels_per_byte v.bpp in
    record v {
      color_invert = if v.user_flipped then v.color_invert else v.cc3_vmode / 32 % 2;
      lines_per_screen = lpf v.vres_index;
      scan = set_lines_per_screen v.vres_index;
      vert_center = vcenter_table v.vres_index;
      pixels_per_line = pixels;
      pixels_per_byte = cc_pixels_per_byte v.bpp;
      stretch = stretch_of pixels;
      horz_center = horz_center_of pixels;
      vpitch = if bit v.horz_offset_reg 7 then 256 else v.bytes_per_row;
      border_color_8 = v.cc3_border_color % 64 + 128;
      border_color_16 = v.pallete_lookup_16 v.mon_type (v.cc3_border_color % 64);
      border_color_32 = v.pallete_lookup_32 v.mon_type (v.cc3_border_color % 64);
      new_start_of_vidram = bit_and v.new_start_of_vidram v.vid_mask + v.disto_offset;
      master_mode =
          v.graphics_mode * 128
          + of_bool v.compat_mode * 64
          + v.bpp % 4 * 16
          + stretch_of pixels % 16;
    }

unfoldable pub setup_display : Video → Video
setup_display v = setup_common (if v.compat_mode then setup_coco2 v else setup_coco3 v)
