-- ===== src/Video/Ntsc.antt =====
-- emulation/tcc1014graphics.cpp: `RenderPMODE4NTSC`, the colours that the NTSC signal gives to a
-- line of the mode of 256 by 192 in two colours, from each pair of pixels and its neighbours.
use cutiecoco.Base.{ℕ, ◌+◌, ◌*◌, ◌/◌, ◌%◌, [], ◌∷◌, ◌==◌, if◌then◌else◌, get_or}
use cutiecoco.Base.Maps.{update}
use cutiecoco.Video.{Video, Host}
use cutiecoco.Video.Raster.{beams, video_array}

-- `ArtifactsNTSC[set]`: the colours, and the same with red and blue exchanged.
abbrev pub artifacts_ntsc : ℕ → ℕ → ℕ
artifacts_ntsc set i =
    get_or
      (0x000000 ∷ 0x004000 ∷ 0x300030 ∷ 0xc0e0c0 ∷ 0xeec8ee ∷ 0x0020a0 ∷ 0xc03c1e ∷ 0x618cff
        ∷ 0xff8f48 ∷ 0xff7800 ∷ 0x0080ff ∷ 0x64f0ff ∷ 0xfff0c8 ∷ 0x00003c ∷ 0x3c0000 ∷ 0xffffff
        ∷ 0x000000 ∷ 0x004000 ∷ 0x300030 ∷ 0xc0e0c0 ∷ 0xeec8ee ∷ 0xc03c1e ∷ 0x0020a0 ∷ 0xff8f48
        ∷ 0x618cff ∷ 0x0080ff ∷ 0xff7800 ∷ 0xfff0c8 ∷ 0x64f0ff ∷ 0x3c0000 ∷ 0x00003c ∷ 0xffffff
        ∷ [])
      (16 * set + i) 0

-- `ArtifactsNTSCIndex`: for the last, this and the next pair of pixels and for the even or the odd
-- pixel of the pair, the number of its colour.
abbrev pub artifacts_ntsc_index : ℕ → ℕ
artifacts_ntsc_index i =
    get_or
      (0 ∷ 0 ∷ 0 ∷ 0 ∷ 0 ∷ 6 ∷ 0 ∷ 2 ∷ 5 ∷ 7 ∷ 5 ∷ 7 ∷ 1 ∷ 3 ∷ 1 ∷ 11 ∷ 8 ∷ 6 ∷ 8 ∷ 14 ∷ 8 ∷ 9 ∷ 8
        ∷ 9 ∷ 4 ∷ 4 ∷ 4 ∷ 15 ∷ 12 ∷ 12 ∷ 12 ∷ 15 ∷ 5 ∷ 13 ∷ 5 ∷ 13 ∷ 13 ∷ 0 ∷ 13 ∷ 2 ∷ 10 ∷ 10 ∷ 10
        ∷ 10 ∷ 10 ∷ 15 ∷ 10 ∷ 11 ∷ 3 ∷ 1 ∷ 3 ∷ 1 ∷ 15 ∷ 9 ∷ 15 ∷ 9 ∷ 11 ∷ 11 ∷ 11 ∷ 11 ∷ 15 ∷ 15
        ∷ 15 ∷ 15 ∷ 14 ∷ 0 ∷ 14 ∷ 0 ∷ 14 ∷ 6 ∷ 14 ∷ 2 ∷ 0 ∷ 7 ∷ 0 ∷ 7 ∷ 1 ∷ 3 ∷ 1 ∷ 11 ∷ 9 ∷ 6 ∷ 9
        ∷ 14 ∷ 9 ∷ 9 ∷ 9 ∷ 9 ∷ 15 ∷ 4 ∷ 15 ∷ 15 ∷ 12 ∷ 12 ∷ 12 ∷ 15 ∷ 2 ∷ 13 ∷ 2 ∷ 13 ∷ 2 ∷ 0 ∷ 2
        ∷ 2 ∷ 10 ∷ 10 ∷ 10 ∷ 10 ∷ 10 ∷ 15 ∷ 10 ∷ 11 ∷ 12 ∷ 1 ∷ 12 ∷ 1 ∷ 12 ∷ 9 ∷ 12 ∷ 9 ∷ 15 ∷ 11
        ∷ 15 ∷ 11 ∷ 15 ∷ 15 ∷ 15 ∷ 15 ∷ [])
      i 0

-- `PALETTE_RGB` and `PALETTE_NTSC` of include/cutie/stubs.h, and its `GetPaletteType`, which
-- answers the first.
abbrev pub palette_rgb : ℕ
palette_rgb = 0

abbrev pub palette_ntsc : ℕ
palette_ntsc = 1

unfoldable pub get_palette_type : ℕ
get_palette_type = palette_rgb

-- The surface, the index `surfaceDest` and the six bits `bitPattern`.
pub record Signal : Type 0 where
  pub surface : ℕ → ℕ
  pub surface_dest : ℕ
  pub bit_pattern : ℕ

module _ (v : Video) (h : Host) where
  -- One pixel of the pair, two columns wide.
  unfoldable pub wide_dot : (dest color : ℕ) → (ℕ → ℕ) → ℕ → ℕ
  wide_dot dest color surface =
      let once = update (update surface (video_array dest) color) (video_array (dest + 1)) color in
      let below = dest + h.surface_pitch in
      if h.scan_lines == 0
      then update (update once (video_array below) color) (video_array (below + 1)) color
      else once

  -- `RenderNTSCPixel2x2`.
  unfoldable pub render_ntsc_pixel_2x2 : (dest index : ℕ) → (ℕ → ℕ) → ℕ → ℕ
  unfolding wide_dot
  render_ntsc_pixel_2x2 dest index surface =
      let shade = λ (k : ℕ). artifacts_ntsc v.color_invert (artifacts_ntsc_index (2 * index + k)) in
      wide_dot (dest + 2) (shade 1) (wide_dot dest (shade 0) surface)

  -- A pair of pixels is rolled into the pattern and drawn.
  unfoldable pub roll : (pair : ℕ) → Signal → Signal
  unfolding render_ntsc_pixel_2x2
  roll pair s =
      let pattern = (s.bit_pattern * 4 + pair) % 64 in
      record {
        surface = render_ntsc_pixel_2x2 s.surface_dest pattern s.surface;
        surface_dest = s.surface_dest + 4;
        bit_pattern = pattern;
      }

  -- The four pairs of a byte.
  unfoldable pub roll_byte : (byte : ℕ) → Signal → Signal
  unfolding roll
  roll_byte byte s =
      roll (byte % 4) (roll (byte / 4 % 4) (roll (byte / 16 % 4) (roll (byte / 64 % 4) s)))

  -- `RenderPMODE4NTSC`: between white borders, whose pair is 3.
  unfoldable pub render_pmode4_ntsc : (dest source : ℕ) → (ℕ → ℕ) → ℕ → ℕ
  unfolding roll roll_byte
  render_pmode4_ntsc dest source surface =
      let start : Signal = record { surface = surface; surface_dest = dest; bit_pattern = 15 } in
      let line =
        beams v.bytes_per_row 0 1 (λ beam. roll_byte (h.ram_buffer (source + beam))) start in
      (roll 3 (roll 3 line)).surface
