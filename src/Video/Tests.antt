-- ===== src/Video/Tests.antt =====
-- The video generator at concrete registers, RAM and surface.
use cutiecoco.Base.{◌<◌, ◌+◌, ◌*◌, ◌%◌, ◌≡◌, inl, inr, refl, false, arith}
use cutiecoco.Calls.{set_gime_vmode, set_gime_vres}
use cutiecoco.Video.{Video, Host}
use cutiecoco.Video.Setup.{
  set_lines_per_screen, stretch_of, setup_display, setup_common, setup_coco3,
}
use cutiecoco.Video.Registers
use cutiecoco.Video.Registers.{gime_reset}
use cutiecoco.Gime.{Gime, gime_write}
use cutiecoco.Mmu.{Mmu, null}
use cutiecoco.Video.Obey.{obey, obey_all}
use cutiecoco.Video.Mirror.{Copies}
use cutiecoco.Video.Writes.{Mirrors, gime_write-Mirrors}
use cutiecoco.Video.Ready.{IsReady}
use cutiecoco.Video.Invariant.{Reachable, reset_first, then_step, called, Reachable-IsReady}
use cutiecoco.Video.Pixels.{AreBytes}
use cutiecoco.Video.Display.{IsGraphics, HasRoom, line_base, line-fills}
use cutiecoco.Video.Borders.{draw_bottom_border_8, draw_bottom_border_16, draw_bottom_border_32}
use cutiecoco.Video.Columns.{shade, column_value}
use cutiecoco.Video.Frames.{screen, update_screen-columns, update_screen-frame}
use cutiecoco.Video.Edges.{draw_bottom_border-frame}
use cutiecoco.Video.Palettes.{composite_32, composite, make_cmp_palette, make_rgb_palette}
use cutiecoco.Video.Cases
use cutiecoco.Video.Modes.{mode_of}
use cutiecoco.Video.Screen8
use cutiecoco.Video.Screen16
use cutiecoco.Video.Screen32

-- The initial values of the statics.
abbrev initial : Video
initial = record {
  pallete = λ _. 0;
  pallete_8bit = λ _. 0;
  pallete_16bit = λ _. 0;
  pallete_32bit = λ _. 0;
  pallete_lookup_8 = λ _ _. 0;
  pallete_lookup_16 = λ _ _. 0;
  pallete_lookup_32 = λ _ _. 0;
  vid_mask = 0x1ffff;
  vres_index = 0;
  cc2_offset = 0;
  cc2_vdg_mode = 0;
  cc2_vdg_pia_mode = 0;
  vertical_offset_register = 0;
  compat_mode = false;
  mon_type = 1;
  cc3_vmode = 0;
  cc3_vres = 0;
  cc3_border_color = 0;
  start_of_vidram = 0;
  start = 0;
  new_start_of_vidram = 0;
  lines_per_screen = 0;
  bpp = 0;
  lines_per_row = 1;
  bytes_per_row = 32;
  graphics_mode = 0;
  text_fg_pallete = 0;
  text_bg_pallete = 0;
  pallete_index = 0;
  pixels_per_line = 0;
  vpitch = 32;
  stretch = 0;
  pixels_per_byte = 0;
  horz_center = 0;
  vert_center = 0;
  lower_case = 0;
  invert_all = 0;
  extended_text = 1;
  horz_offset_reg = 0;
  hoffset = 0;
  tag_y = 0;
  border_color_32 = 0;
  border_color_16 = 0;
  border_color_8 = 0;
  disto_offset = 0;
  border_change = 3;
  master_mode = 0;
  color_invert = 1;
  blink_state = 1;
  user_flipped = false;
  carry2 = λ _. 0;
  scan = set_lines_per_screen 0;
}

-- 320 by 192 in sixteen colours.
abbrev sixteen_colors : Video
sixteen_colors = obey (set_gime_vres 0x1e) (obey (set_gime_vmode 0x80) (gime_reset initial).0)

abbrev host : Host
host = record {
  ram_buffer = λ i. i % 256;
  surface = λ _. 0;
  surface_pitch = 640;
  line_counter = 3;
  scan_lines = 0;
  window_w = 640;
  window_h = 480;
  cc3_fontdata = λ _. 0;
  ntsc_round_fontdata = λ _. 0;
}

sixteen_colors-Reachable : Reachable sixteen_colors
sixteen_colors-Reachable =
    then_step
      (then_step (reset_first initial (omega arith) refl) (called (set_gime_vmode 0x80) refl))
      (called (set_gime_vres 0x1e) refl)

Reachable-IsReady_example : IsReady sixteen_colors
Reachable-IsReady_example = Reachable-IsReady sixteen_colors-Reachable

-- The projections of a state that is set up are computed once.
sixteen_colors-IsGraphics : IsGraphics sixteen_colors
unfolding IsGraphics Cases.case_of obey gime_reset Registers.set_gime_vres Registers.set_gime_vmode
    Registers.redisplay setup_display setup_common setup_coco3 make_cmp_palette make_rgb_palette
sixteen_colors-IsGraphics = (refl, omega arith, omega arith, refl)

host-AreBytes : AreBytes host.ram_buffer
unfolding AreBytes
host-AreBytes i = omega arith

host-HasRoom : HasRoom screen sixteen_colors host
unfolding HasRoom obey gime_reset Registers.set_gime_vres Registers.set_gime_vmode
    Registers.redisplay setup_display setup_common setup_coco3 make_cmp_palette make_rgb_palette
host-HasRoom = (omega arith, omega arith)

seventh_column : 7 < sixteen_colors.pixels_per_line * (sixteen_colors.stretch + 1)
unfolding obey gime_reset Registers.set_gime_vres Registers.set_gime_vmode Registers.redisplay
    setup_display setup_common setup_coco3 make_cmp_palette make_rgb_palette
seventh_column = omega arith

update_screen-columns_example :
    ((Screen8.update_screen sixteen_colors host).1.surface
        (line_base sixteen_colors host + 1 * host.surface_pitch + 7)
      ≡ shade sixteen_colors.pallete_8bit sixteen_colors (column_value sixteen_colors host 7))
    × ((Screen16.update_screen sixteen_colors host).1.surface
          (line_base sixteen_colors host + 1 * host.surface_pitch + 7)
        ≡ shade sixteen_colors.pallete_16bit sixteen_colors (column_value sixteen_colors host 7))
    × ((Screen32.update_screen sixteen_colors host).1.surface
          (line_base sixteen_colors host + 1 * host.surface_pitch + 7)
        ≡ shade sixteen_colors.pallete_32bit sixteen_colors (column_value sixteen_colors host 7))
update_screen-columns_example =
    update_screen-columns sixteen_colors host 7 1 (Reachable-IsReady sixteen_colors-Reachable)
      sixteen_colors-IsGraphics host-AreBytes host-HasRoom seventh_column (inr (refl, refl))

update_screen-frame_example :
    ((Screen8.update_screen sixteen_colors host).1.surface 99 ≡ 0)
    × ((Screen16.update_screen sixteen_colors host).1.surface 99 ≡ 0)
    × ((Screen32.update_screen sixteen_colors host).1.surface 99 ≡ 0)
unfolding obey gime_reset Registers.set_gime_vres Registers.set_gime_vmode Registers.redisplay
    setup_display setup_common setup_coco3 make_cmp_palette make_rgb_palette
update_screen-frame_example =
    update_screen-frame sixteen_colors host 99 (Reachable-IsReady sixteen_colors-Reachable)
      sixteen_colors-IsGraphics host-HasRoom (inl (omega arith))

line-fills_example :
    sixteen_colors.pixels_per_line * (sixteen_colors.stretch + 1) + 2 * sixteen_colors.horz_center
    ≡ 640
line-fills_example =
    line-fills sixteen_colors (Reachable-IsReady sixteen_colors-Reachable) sixteen_colors-IsGraphics

draw_bottom_border-frame_example :
    ((draw_bottom_border_8 sixteen_colors host).surface 307200 ≡ 0)
    × ((draw_bottom_border_16 sixteen_colors host).surface 307200 ≡ 0)
    × ((draw_bottom_border_32 sixteen_colors host).surface 307200 ≡ 0)
draw_bottom_border-frame_example =
    draw_bottom_border-frame 307200 sixteen_colors host refl (omega arith) (inr (omega arith))

-- A composite channel of 5 times 1.4 is 7: the product is rounded to single precision.
composite_test : composite_32 13 ≡ 477063
unfolding composite_32 composite
composite_test = refl

-- 1024 pixels of one bit leave no room to stretch: `512 / 1024 - 1` is 255, and the number of the
-- mode is that of a mode of two bits.
wide_test : (stretch_of 1024 ≡ 255) × (Cases.case_of (mode_of 1 false 128 0) ≡ Cases.plain_2x1)
unfolding Cases.case_of
wide_test = (refl, refl)

abbrev no_memory : Mmu
no_memory = record {
  memory = λ i. 0;
  internal_rom = λ i. 0;
  mem_pages = λ i. null;
  mem_page_offsets = λ i. 0;
  registers = λ t i. 0;
  mmu_task = 0;
  mmu_enabled = 0;
  ram_vectors = false;
  mmu_state = 0;
  rom_map = 0;
  map_type = 0;
  current_ram_config = 0;
  mmu_prefix = 0;
  ram_size = 0;
}

abbrev no_registers : Gime
no_registers = record {
  registers = λ _. 0;
  vdg_mode = 0;
  dis_offset = 0;
  enhanced_firq = false;
  enhanced_irq = false;
  last_irq = 0;
  last_firq = 0;
  keyboard_interrupt_enabled = false;
  sam_rom = null;
}

initial-Mirrors : Mirrors no_registers initial
unfolding Mirrors Copies
initial-Mirrors = (refl, refl, refl, refl)

gime_write-Mirrors_example :
    Mirrors
      (gime_write 0x98 0x80 no_registers no_memory).0
      (obey_all (gime_write 0x98 0x80 no_registers no_memory).2 initial)
gime_write-Mirrors_example =
    gime_write-Mirrors 0x98 0x80 no_registers no_memory initial initial-Mirrors
