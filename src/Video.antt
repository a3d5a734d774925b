-- ===== src/Video.antt =====
-- emulation/tcc1014graphics.cpp: the video half of the GIME. Its statics are the fields of
-- `Video`; what it reads of the `SystemState` (include/cutie/compat.h) is `Host`. An `unsigned`
-- of w bits wraps by `% 2 ^ w`; `x & mask` with a mask of low ones is `x % (mask + 1)`, and a
-- `|` of disjoint fields is a sum (Base.BitLaws).
pub mod Setup
pub mod Palettes
pub mod Registers
pub mod Raster
pub mod Cases
pub mod Text
pub mod Artifacts
pub mod Borders
pub mod Ntsc
pub mod Lines
pub mod Overlay
pub mod Drawing
pub mod Shapes
pub mod Pictures
pub mod Fields
pub mod Pixels
pub mod Modes
pub mod Ready
pub mod Obey
pub mod Invariant
pub mod Display
pub mod Columns
pub mod Frames
pub mod Edges
pub mod Mirror
pub mod Writes
mod Tests
pub mod Screen8
pub mod Screen16
pub mod Screen32
use cutiecoco.Base.{ℕ, Bool}

-- What `SetLinesperScreen` of emulation/coco3.cpp sets for the scan-line unit.
pub record Scan : Type 0 where
  pub lines_per_screen : ℕ
  pub top_border : ℕ
  pub bottom_border : ℕ
  pub top_off_screen : ℕ
  pub bottom_off_screen : ℕ

-- The first index of a `pallete_lookup` is the monitor: 0 composite, 1 RGB. `carry2` holds the
-- static `Carry2` of `UpdateScreen8`, `UpdateScreen16` and `UpdateScreen32` by colour depth.
pub record Video : Type 0 where
  pub pallete : ℕ → ℕ
  pub pallete_8bit : ℕ → ℕ
  pub pallete_16bit : ℕ → ℕ
  pub pallete_32bit : ℕ → ℕ
  pub pallete_lookup_8 : ℕ → ℕ → ℕ
  pub pallete_lookup_16 : ℕ → ℕ → ℕ
  pub pallete_lookup_32 : ℕ → ℕ → ℕ
  pub vid_mask : ℕ
  pub vres_index : ℕ
  pub cc2_offset : ℕ
  pub cc2_vdg_mode : ℕ
  pub cc2_vdg_pia_mode : ℕ
  pub vertical_offset_register : ℕ
  pub compat_mode : Bool
  pub mon_type : ℕ
  pub cc3_vmode : ℕ
  pub cc3_vres : ℕ
  pub cc3_border_color : ℕ
  pub start_of_vidram : ℕ
  pub start : ℕ
  pub new_start_of_vidram : ℕ
  pub lines_per_screen : ℕ
  pub bpp : ℕ
  pub lines_per_row : ℕ
  pub bytes_per_row : ℕ
  pub graphics_mode : ℕ
  pub text_fg_pallete : ℕ
  pub text_bg_pallete : ℕ
  pub pallete_index : ℕ
  pub pixels_per_line : ℕ
  pub vpitch : ℕ
  pub stretch : ℕ
  pub pixels_per_byte : ℕ
  pub horz_center : ℕ
  pub vert_center : ℕ
  pub lower_case : ℕ
  pub invert_all : ℕ
  pub extended_text : ℕ
  pub horz_offset_reg : ℕ
  pub hoffset : ℕ
  pub tag_y : ℕ
  pub border_color_32 : ℕ
  pub border_color_16 : ℕ
  pub border_color_8 : ℕ
  pub disto_offset : ℕ
  pub border_change : ℕ
  pub master_mode : ℕ
  pub color_invert : ℕ
  pub blink_state : ℕ
  pub user_flipped : Bool
  pub carry2 : ℕ → ℕ
  pub scan : Scan

-- The two fonts of cc3font.h and cc2font.h are tables of bytes. `surface` is the array behind
-- `PTRsurface8`, `PTRsurface16` or `PTRsurface32`.
pub record Host : Type 0 where
  pub ram_buffer : ℕ → ℕ
  pub surface : ℕ → ℕ
  pub surface_pitch : ℕ
  pub line_counter : ℕ
  pub scan_lines : ℕ
  pub window_w : ℕ
  pub window_h : ℕ
  pub cc3_fontdata : ℕ → ℕ
  pub ntsc_round_fontdata : ℕ → ℕ
