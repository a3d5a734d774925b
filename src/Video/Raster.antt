-- ===== src/Video/Raster.antt =====
-- emulation/tcc1014graphics.cpp: what the drawing of a line in `UpdateScreen8`, `UpdateScreen16`
-- and `UpdateScreen32` is made of: writes through `PTRsurface[YStride+=1]`, blocks of pixels that
-- are drawn on one row or on two, and the loops over `HorzBeam`.
use Prim.Native.Nat.{bit_and}
use cutiecoco.Base.{
  ℕ, zero, suc, ◌+◌, ◌-◌, ◌*◌, ◌/◌, ◌%◌, ◌^◌, List, [], ◌∷◌, ◌++◌, map, ◌==◌, if◌then◌else◌, length,
}
use cutiecoco.Base.Bits.{u8}
use cutiecoco.Base.Maps.{update}
use cutiecoco.Video.{Video, Host}

-- `YStride` is an `unsigned int`, the index of the last pixel written. The three carries belong to
-- the artifact colours.
pub record Cursor : Type 0 where
  pub surface : ℕ → ℕ
  pub stride : ℕ
  pub carry1 : ℕ
  pub carry2 : ℕ
  pub pcolor : ℕ

abbrev pub u32 : ℕ → ℕ
u32 n = n % 2 ^ 32

-- The element of the surface that an index names: the index itself through the bare pointers of 8
-- and 16 bits, and the index modulo 640 * 480 through the `VideoArray` of 32 bits.
abbrev pub bare : ℕ → ℕ
bare i = i

abbrev pub video_array : ℕ → ℕ
video_array i = i % (640 * 480)

abbrev pub replicate {ℓ} : {A : Type ℓ} → ℕ → A → List A
replicate zero x = []
replicate (suc n) x = x ∷ replicate n x

-- Every element `n` times, as the code of a mode repeats the write of a pixel.
unfoldable pub stretched {ℓ} : {A : Type ℓ} → ℕ → List A → List A
stretched n [] = []
stretched n (x ∷ xs) = replicate n x ++ stretched n xs

-- The fields of a word of two bytes in the order of drawing: first the low byte, the byte at the
-- lower address, and in each byte the highest bits first.
abbrev pub pick : ℕ → List ℕ → ℕ → List ℕ
pick count shifts w = map (λ s. w / 2 ^ s % count) shifts

unfoldable pub ones : ℕ → List ℕ
ones w = pick 2 (7 ∷ 6 ∷ 5 ∷ 4 ∷ 3 ∷ 2 ∷ 1 ∷ 0 ∷ 15 ∷ 14 ∷ 13 ∷ 12 ∷ 11 ∷ 10 ∷ 9 ∷ 8 ∷ []) w

unfoldable pub twos : ℕ → List ℕ
twos w = pick 4 (6 ∷ 4 ∷ 2 ∷ 0 ∷ 14 ∷ 12 ∷ 10 ∷ 8 ∷ []) w

unfoldable pub fours : ℕ → List ℕ
fours w = pick 16 (4 ∷ 0 ∷ 12 ∷ 8 ∷ []) w

-- `for (HorzBeam=0;HorzBeam<stop;HorzBeam+=step)`, as the number of its rounds.
abbrev pub rounds : ℕ → ℕ → ℕ
rounds stop step = (stop + step - 1) / step

unfoldable pub beams {ℓ} : {A : Type ℓ} (count beam step : ℕ) → (ℕ → A → A) → A → A
beams zero beam step draw c = c
beams (suc count) beam step draw c = beams count (beam + step) step draw (draw beam c)

module _ (element : ℕ → ℕ) where
  -- `PTRsurface[YStride+=1]=color`.
  unfoldable pub put : ℕ → Cursor → Cursor
  put color c = record c {
    stride = u32 (c.stride + 1);
    surface = update c.surface (element (u32 (c.stride + 1))) color;
  }

  unfoldable pub puts : List ℕ → Cursor → Cursor
  puts [] c = c
  puts (x ∷ xs) c = puts xs (put x c)

  -- The same pixels on the next row: `YStride-=n; YStride+=SurfacePitch; ...
  -- YStride-=SurfacePitch`, for the `n` pixels just drawn.
  unfoldable pub second_row : ℕ → List ℕ → Cursor → Cursor
  second_row pitch xs c =
      let below = puts xs (record c { stride = u32 (c.stride + 2 ^ 32 - length xs + pitch) }) in
      record below { stride = u32 (below.stride + 2 ^ 32 - pitch % 2 ^ 32) }

  unfoldable pub block : Host → List ℕ → Cursor → Cursor
  block h xs c = if h.scan_lines == 0 then second_row h.surface_pitch xs (puts xs c) else puts xs c

-- `Start+(unsigned char)(Hoffset+HorzBeam)`, and the word of `WRamBuffer` there: the RAM read by
-- words of the little-endian host.
abbrev pub beam_address : Video → ℕ → ℕ
beam_address v beam = u32 (v.start + u8 (v.hoffset + beam))

unfoldable pub wide_pixel : Video → Host → ℕ → ℕ
wide_pixel v h beam =
    let i = bit_and v.vid_mask (beam_address v beam) / 2 in
    h.ram_buffer (2 * i) + 256 * h.ram_buffer (2 * i + 1)

-- The loop of a graphics mode: every word gives the colours of a block.
unfoldable pub words : (ℕ → ℕ) → Video → Host → (ℕ → List ℕ) → Cursor → Cursor
words element v h paint =
    beams (rounds v.bytes_per_row 2) 0 2 (λ beam. block element h (paint (wide_pixel v h beam)))
