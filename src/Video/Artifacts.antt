-- ===== src/Video/Artifacts.antt =====
-- emulation/tcc1014graphics.cpp: the artifact colours of the mode of 256 by 192 in two colours,
-- the labels 192+1 and 192+2: the colours that a composite monitor shows for the phase of the
-- pixels, in the loops of `UpdateScreen8`, `UpdateScreen16` and `UpdateScreen32`.
use cutiecoco.Base.{
  ℕ, ◌+◌, ◌-◌, ◌*◌, ◌/◌, ◌%◌, ◌^◌, Bool, ◌&&◌, List, [], ◌∷◌, map, ◌==◌, if◌then◌else◌, get_or,
}
use cutiecoco.Base.Bits.{bit}
use cutiecoco.Base.Maps.{update}
use cutiecoco.Video.{Video, Host}
use cutiecoco.Video.Raster.{Cursor, u32, rounds, beams, block, wide_pixel, stretched, ones}

abbrev pub afacts_8 : ℕ → ℕ → ℕ
afacts_8 set i = get_or (0 ∷ 0xa4 ∷ 0x89 ∷ 0xbf ∷ 0 ∷ 137 ∷ 164 ∷ 191 ∷ []) (4 * set + i) 0

abbrev pub afacts_16 : ℕ → ℕ → ℕ
afacts_16 set i =
    get_or (0 ∷ 0xf800 ∷ 0x001f ∷ 0xffff ∷ 0 ∷ 0x001f ∷ 0xf800 ∷ 0xffff ∷ []) (4 * set + i) 0

abbrev pub afacts_32 : ℕ → ℕ → ℕ
afacts_32 set i =
    get_or (0 ∷ 0xff8d1f ∷ 0x0667ff ∷ 0xffffff ∷ 0 ∷ 0x0667ff ∷ 0xff8d1f ∷ 0xffffff ∷ [])
      (4 * set + i) 0

-- 1 is RGB: bit 4 of the mode makes a composite monitor show no colours.
unfoldable pub pmode4_mon_type : Video → ℕ
pmode4_mon_type v = if bit v.cc3_vmode 4 then 1 else v.mon_type

module _ (element : ℕ → ℕ) (v : Video) (h : Host) where
  -- A write at an index, and at the index a row below unless the scan lines are on.
  unfoldable pub dot : (index below color : ℕ) → Cursor → Cursor
  dot index below color c =
      let once = update c.surface (element index) color in
      record c { surface = if h.scan_lines == 0 then update once (element below) color else once }

  -- `PTRsurface[YStride+=1]=color`, and the same a row below.
  unfoldable pub put_both : ℕ → Cursor → Cursor
  unfolding dot
  put_both color c =
      let next = u32 (c.stride + 1) in
      dot next (next + h.surface_pitch) color (record c { stride = next })

  -- Two white pixels in a row make the one before white too.
  unfoldable pub whiten : ℕ → Cursor → Cursor
  unfolding dot
  whiten color c =
      dot c.stride (c.stride + h.surface_pitch) color
        (dot (u32 (c.stride + 2 ^ 32 - 1)) (c.stride + h.surface_pitch - 1) color c)

  -- `Sphase`: the last two pixels and this one.
  abbrev pub sphase : Cursor → ℕ → ℕ
  sphase c pix = c.carry2 * 4 + c.carry1 * 2 + pix

  -- The switch on `Sphase`.
  unfoldable pub phase_color : (phase position last : ℕ) → ℕ
  phase_color phase position last =
      if (phase == 3)
      then 3
      else if phase == 7
      then 3
      else if phase == 2
      then last
      else if phase == 1
      then position % 2 + 1
      else if phase == 5
      then position % 2 + 1
      else 0

  -- One pixel of the loops over `Bit`.
  unfoldable pub artifact : (afacts : ℕ → ℕ → ℕ) (word position : ℕ) → Cursor → Cursor
  unfolding whiten phase_color put_both
  artifact afacts word position c =
      let pix = word / 2 ^ position % 2 in
      let color = phase_color (sphase c pix) position c.pcolor in
      let white = if sphase c pix == 3 then whiten (afacts v.color_invert 3) c else c in
      let shade = afacts v.color_invert color in
      record (put_both shade (put_both shade white)) {
        carry2 = c.carry1;
        carry1 = pix;
        pcolor = color;
      }

  unfoldable pub artifact_bits : (afacts : ℕ → ℕ → ℕ) (word : ℕ) → List ℕ → Cursor → Cursor
  artifact_bits afacts word [] c = c
  artifact_bits afacts word (k ∷ ks) c = artifact_bits afacts word ks (artifact afacts word k c)

  -- The body of the loop: artifacts on a composite monitor with a white border, else the two
  -- colours of the palette.
  unfoldable pub artifact_word :
      (afacts : ℕ → ℕ → ℕ) (white : Bool) (color : ℕ → ℕ) (beam : ℕ) → Cursor → Cursor
  artifact_word afacts white color beam c =
      let word = wide_pixel v h beam in
      if (pmode4_mon_type v == 0) && white
      then artifact_bits afacts word
          (7 ∷ 6 ∷ 5 ∷ 4 ∷ 3 ∷ 2 ∷ 1 ∷ 0 ∷ 15 ∷ 14 ∷ 13 ∷ 12 ∷ 11 ∷ 10 ∷ 9 ∷ 8 ∷ []) c
      else block element h (map color (stretched 2 (ones word))) c

  unfoldable pub artifact_words :
      (afacts : ℕ → ℕ → ℕ) (white : Bool) (color : ℕ → ℕ) → Cursor → Cursor
  artifact_words afacts white color =
      beams (rounds v.bytes_per_row 2) 0 2 (artifact_word afacts white color)
