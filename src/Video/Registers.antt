-- ===== src/Video/Registers.antt =====
-- emulation/tcc1014graphics.cpp: the operations by which the other units set the registers of the
-- video generator. Every one but the palette, the mask and the borders recomputes the display.
-- `MiscReset` of emulation/coco3.cpp, which `GimeReset` calls, is a call to another unit. The bare
-- answers `GetBytesPerRow`, `GetStartOfVidram` and `GetGraphicsMode` are the fields.
use cutiecoco.Base.{ℕ, ◌+◌, ◌-◌, ◌*◌, ◌/◌, ◌%◌, Bool, true, List, [], ◌∷◌, ltb, ◌==◌, if◌then◌else◌}
use cutiecoco.Base.Bits.{u8, of_bool}
use cutiecoco.Base.Maps.{update}
use cutiecoco.Calls.{Call, misc_reset}
use cutiecoco.Video.{Video, Host}
use cutiecoco.Video.Setup.{setup_display}
use cutiecoco.Video.Palettes.{make_rgb_palette, make_cmp_palette}

-- `SetupDisplay` and `BoarderChange=3`.
unfoldable pub redisplay : Video → Video
redisplay v = record (setup_display v) { border_change = 3 }

unfoldable pub set_gime_vdg_offset : ℕ → Video → Video
set_gime_vdg_offset offset v =
    if v.cc2_offset == offset then v else setup_display (record v { cc2_offset = offset })

unfoldable pub set_gime_vdg_mode : ℕ → Video → Video
set_gime_vdg_mode vdg_mode v =
    if v.cc2_vdg_mode == vdg_mode then v else redisplay (record v { cc2_vdg_mode = vdg_mode })

unfoldable pub set_gime_vdg_mode2 : ℕ → Video → Video
set_gime_vdg_mode2 vdg_mode v =
    if v.cc2_vdg_pia_mode == vdg_mode
    then v
    else redisplay (record v { cc2_vdg_pia_mode = vdg_mode })

unfoldable pub set_vertical_offset_register : ℕ → Video → Video
set_vertical_offset_register register v =
    if v.vertical_offset_register == register
    then v
    else setup_display (record v { vertical_offset_register = register })

unfoldable pub set_compat_mode : Bool → Video → Video
set_compat_mode register v =
    if of_bool v.compat_mode == of_bool register
    then v
    else redisplay (record v { compat_mode = register })

-- The colour and what the tables of the monitor make of it.
unfoldable pub set_gime_pallet : (pallete color : ℕ) → Video → Video
set_gime_pallet pallete color v = record v {
  pallete = update v.pallete pallete (color % 64);
  pallete_8bit = update v.pallete_8bit pallete (v.pallete_lookup_8 v.mon_type (color % 64));
  pallete_16bit = update v.pallete_16bit pallete (v.pallete_lookup_16 v.mon_type (color % 64));
  pallete_32bit = update v.pallete_32bit pallete (v.pallete_lookup_32 v.mon_type (color % 64));
}

unfoldable pub set_gime_vmode : ℕ → Video → Video
set_gime_vmode vmode v =
    if v.cc3_vmode == vmode then v else redisplay (record v { cc3_vmode = vmode })

unfoldable pub set_gime_vres : ℕ → Video → Video
set_gime_vres vres v = if v.cc3_vres == vres then v else redisplay (record v { cc3_vres = vres })

unfoldable pub set_gime_horz_offset : ℕ → Video → Video
set_gime_horz_offset data_byte v =
    if v.horz_offset_reg == data_byte
    then v
    else setup_display (record v { hoffset = u8 (2 * data_byte); horz_offset_reg = data_byte })

unfoldable pub set_gime_border_color : ℕ → Video → Video
set_gime_border_color color v =
    if v.cc3_border_color == color % 64
    then v
    else redisplay (record v { cc3_border_color = color % 64 })

-- One frame with the border drawn.
unfoldable pub set_border_change : Video → Video
set_border_change v = record v { border_change = v.border_change - 1 }

unfoldable pub invalidate_border : Video → Video
invalidate_border v = record v { border_change = 5 }

unfoldable pub tog_blink_state : Video → Video
tog_blink_state v = record v {
  blink_state = if v.blink_state % 2 == 0 then v.blink_state + 1 else v.blink_state - 1;
}

unfoldable pub set_vid_mask : ℕ → Video → Video
set_vid_mask mask v = record v { vid_mask = mask }

unfoldable pub set_video_bank : ℕ → Video → Video
set_video_bank bank v = setup_display (record v { disto_offset = bank * (512 * 1024) })

-- The statics that `GimeReset` does not name keep their values.
unfoldable pub gime_reset : Video → Video × List Call
gime_reset v =
    let cleared = record v {
      cc3_vmode = 0;
      cc3_vres = 0;
      start_of_vidram = 0;
      new_start_of_vidram = 0;
      graphics_mode = 0;
      lower_case = 0;
      invert_all = 0;
      extended_text = 1;
      horz_offset_reg = 0;
      tag_y = 0;
      disto_offset = 0;
    } in
    let colored = make_cmp_palette (make_rgb_palette cleared) in
    let offsets = record colored {
      border_change = 3;
      cc2_offset = 0;
      hoffset = 0;
      vertical_offset_register = 0;
    } in
    (setup_display offsets, misc_reset ∷ [])

abbrev pub query : ℕ
query = 255

-- The palette is translated again for the new monitor.
unfoldable pub take_monitor : ℕ → Video → Video
take_monitor monitor v =
    let mon = monitor % 2 in
    let translate = λ (table : ℕ → ℕ → ℕ) (old : ℕ → ℕ) (i : ℕ).
      if ltb i 16 then table mon (v.pallete i) else old i in
    record v {
      mon_type = mon;
      pallete_16bit = translate v.pallete_lookup_16 v.pallete_16bit;
      pallete_32bit = translate v.pallete_lookup_32 v.pallete_32bit;
      pallete_8bit = translate v.pallete_lookup_8 v.pallete_8bit;
    }

unfoldable pub set_monitor_type : ℕ → Video → ℕ × Video
unfolding take_monitor
set_monitor_type monitor v =
    let black = set_gime_border_color 0 v in
    let taken = if monitor == query then black else take_monitor monitor black in
    (taken.mon_type, set_gime_border_color v.cc3_border_color taken)

unfoldable pub set_palette_type : Video → Video
set_palette_type v =
    set_gime_border_color v.cc3_border_color (make_cmp_palette (set_gime_border_color 0 v))

-- `Cls` of include/cutie/stubs.h does nothing.
unfoldable pub set_scan_lines : ℕ → Video → Host → Video × Host
set_scan_lines lines v h =
    if lines == query
    then (v, h)
    else (record v { border_change = 3 }, record h { scan_lines = lines })

unfoldable pub flip_artifacts : Video → Video
flip_artifacts v = record v {
  color_invert = if v.color_invert == 0 then 1 else 0;
  user_flipped = true;
}

unfoldable pub get_horizontal_border_size : Video → ℕ
get_horizontal_border_size v = v.horz_center / 2

unfoldable pub get_displayed_pixels_per_line : Video → ℕ
get_displayed_pixels_per_line v = v.pixels_per_line
