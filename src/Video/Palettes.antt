-- ===== src/Video/Palettes.antt =====
-- emulation/tcc1014graphics.cpp: the tables that translate the 64 colours of the Color Computer 3
-- to the 8, 16 and 32 bits of the display: `MakeRGBPalette` and `MakeCMPpalette`. A loop over all
-- the indices of a table is the function that it computes. `float` is the IEEE single precision.
use cutiecoco.Base.{
  ℕ, ◌+◌, ◌*◌, ◌/◌, ◌%◌, ◌^◌, ◌&&◌, [], ◌∷◌, ltb, ◌==◌, if◌then◌else◌, min, get_or,
}
use cutiecoco.Base.Bits.{set_bit}
use cutiecoco.Video.{Video}

abbrev pub color_table_16bit : ℕ → ℕ
color_table_16bit i = get_or (0 ∷ 10 ∷ 21 ∷ 31 ∷ []) i 0

abbrev pub color_table_32bit : ℕ → ℕ
color_table_32bit i = get_or (0 ∷ 85 ∷ 170 ∷ 255 ∷ []) i 0

-- The two bits of red, green and blue of a colour rgbrgb.
abbrev pub red_bits : ℕ → ℕ
red_bits color = color / 32 % 2 * 2 + color / 4 % 2

abbrev pub green_bits : ℕ → ℕ
green_bits color = color / 16 % 2 * 2 + color / 2 % 2

abbrev pub blue_bits : ℕ → ℕ
blue_bits color = color / 8 % 2 * 2 + color % 2

unfoldable pub rgb_16 : ℕ → ℕ
rgb_16 color =
    color_table_16bit (red_bits color) * 2048
    + color_table_16bit (green_bits color) * 64
    + color_table_16bit (blue_bits color)

unfoldable pub rgb_32 : ℕ → ℕ
rgb_32 color =
    color_table_32bit (red_bits color) * 65536
    + color_table_32bit (green_bits color) * 256
    + color_table_32bit (blue_bits color)

-- The row of the RGB monitor, number 1, for the indices below 64.
abbrev pub fill_row : (row : ℕ) (value : ℕ → ℕ) → (ℕ → ℕ → ℕ) → ℕ → ℕ → ℕ
fill_row row value table monitor color =
    if (monitor == row) && ltb color 64 then value color else table monitor color

unfoldable pub make_rgb_palette : Video → Video
make_rgb_palette v = record v {
  pallete_lookup_8 = fill_row 1 (λ color. set_bit color 7) v.pallete_lookup_8;
  pallete_lookup_16 = fill_row 1 rgb_16 v.pallete_lookup_16;
  pallete_lookup_32 = fill_row 1 rgb_32 v.pallete_lookup_32;
}

-- The tables of `MakeCMPpalette`.
abbrev pub composite_red : ℕ → ℕ
composite_red i =
    get_or
      (0 ∷ 14 ∷ 12 ∷ 21 ∷ 51 ∷ 86 ∷ 108 ∷ 118 ∷ 113 ∷ 92 ∷ 61 ∷ 21 ∷ 1 ∷ 5 ∷ 12 ∷ 13 ∷ 50 ∷ 29 ∷ 49
        ∷ 86 ∷ 119 ∷ 158 ∷ 179 ∷ 192 ∷ 186 ∷ 165 ∷ 133 ∷ 94 ∷ 23 ∷ 16 ∷ 23 ∷ 25 ∷ 116 ∷ 74 ∷ 102
        ∷ 142 ∷ 179 ∷ 219 ∷ 243 ∷ 252 ∷ 251 ∷ 230 ∷ 198 ∷ 155 ∷ 81 ∷ 61 ∷ 52 ∷ 57 ∷ 253 ∷ 137 ∷ 161
        ∷ 189 ∷ 215 ∷ 240 ∷ 253 ∷ 253 ∷ 251 ∷ 237 ∷ 214 ∷ 183 ∷ 134 ∷ 121 ∷ 116 ∷ 255 ∷ [])
      i 0

abbrev pub composite_green : ℕ → ℕ
composite_green i =
    get_or
      (0 ∷ 78 ∷ 69 ∷ 53 ∷ 33 ∷ 4 ∷ 1 ∷ 1 ∷ 12 ∷ 24 ∷ 31 ∷ 35 ∷ 37 ∷ 51 ∷ 67 ∷ 77 ∷ 50 ∷ 149 ∷ 141
        ∷ 123 ∷ 103 ∷ 77 ∷ 55 ∷ 39 ∷ 35 ∷ 43 ∷ 53 ∷ 63 ∷ 100 ∷ 119 ∷ 137 ∷ 148 ∷ 116 ∷ 212 ∷ 204
        ∷ 186 ∷ 164 ∷ 137 ∷ 114 ∷ 97 ∷ 88 ∷ 89 ∷ 96 ∷ 109 ∷ 156 ∷ 179 ∷ 199 ∷ 211 ∷ 253 ∷ 230 ∷ 221
        ∷ 207 ∷ 192 ∷ 174 ∷ 158 ∷ 148 ∷ 143 ∷ 144 ∷ 150 ∷ 162 ∷ 196 ∷ 212 ∷ 225 ∷ 255 ∷ [])
      i 0

abbrev pub composite_blue : ℕ → ℕ
composite_blue i =
    get_or
      (0 ∷ 20 ∷ 18 ∷ 14 ∷ 10 ∷ 10 ∷ 12 ∷ 19 ∷ 76 ∷ 135 ∷ 178 ∷ 196 ∷ 148 ∷ 97 ∷ 29 ∷ 20 ∷ 50 ∷ 38
        ∷ 36 ∷ 32 ∷ 28 ∷ 25 ∷ 24 ∷ 78 ∷ 143 ∷ 207 ∷ 248 ∷ 249 ∷ 228 ∷ 174 ∷ 99 ∷ 46 ∷ 116 ∷ 58 ∷ 52
        ∷ 48 ∷ 44 ∷ 41 ∷ 68 ∷ 132 ∷ 202 ∷ 250 ∷ 250 ∷ 250 ∷ 251 ∷ 243 ∷ 163 ∷ 99 ∷ 254 ∷ 104 ∷ 83
        ∷ 77 ∷ 82 ∷ 105 ∷ 142 ∷ 188 ∷ 237 ∷ 251 ∷ 251 ∷ 251 ∷ 252 ∷ 240 ∷ 183 ∷ 255 ∷ [])
      i 0

-- `gamma` times 2 ^ 23: the nearest `float` to 1.4, to 1.1 and to 1.
unfoldable pub gamma : (color : ℕ) → ℕ
gamma color = if ltb 55 color then 8388608 else if ltb 39 color then 9227469 else 11744051

-- A product of `float`s keeps 24 bits: it is rounded to a multiple of `2 ^ k`, half to even.
unfoldable pub round_to : (step product : ℕ) → ℕ
round_to step product =
    let low = product / step in
    if ltb (product % step * 2) step
    then low * step
    else if ltb step (product % step * 2)
    then (low + 1) * step
    else (low + low % 2) * step

unfoldable pub float_product : ℕ → ℕ
unfolding round_to
float_product p =
    if ltb p (2 ^ 24)
    then p
    else if ltb p (2 ^ 25)
    then round_to 2 p
    else if ltb p (2 ^ 26)
    then round_to 4 p
    else if ltb p (2 ^ 27)
    then round_to 8 p
    else if ltb p (2 ^ 28)
    then round_to 16 p
    else if ltb p (2 ^ 29)
    then round_to 32 p
    else if ltb p (2 ^ 30)
    then round_to 64 p
    else if ltb p (2 ^ 31)
    then round_to 128 p
    else round_to 256 p

-- A channel times its gamma, at most 255, as an `unsigned char`.
unfoldable pub composite : (channel : ℕ → ℕ) (color : ℕ) → ℕ
unfolding gamma float_product
composite channel color = min 255 (float_product (channel color * gamma color) / 2 ^ 23)

unfoldable pub composite_32 : ℕ → ℕ
composite_32 color =
    composite composite_red color * 65536
    + composite composite_green color * 256
    + composite composite_blue color

-- The top five bits of each channel.
unfoldable pub composite_16 : ℕ → ℕ
composite_16 color =
    composite composite_red color / 8 * 2048
    + composite composite_green color / 8 * 64
    + composite composite_blue color / 8

-- The top two bits of each channel, in the order rgbrgb.
abbrev pub top_bits : (channel : ℕ → ℕ) (color : ℕ) → ℕ
top_bits channel color = composite channel color / 64

unfoldable pub composite_8 : ℕ → ℕ
composite_8 color =
    128
    + top_bits composite_red color / 2 % 2 * 32
    + top_bits composite_green color / 2 % 2 * 16
    + top_bits composite_blue color / 2 % 2 * 8
    + top_bits composite_red color % 2 * 4
    + top_bits composite_green color % 2 * 2
    + top_bits composite_blue color % 2

unfoldable pub make_cmp_palette : Video → Video
make_cmp_palette v = record v {
  pallete_lookup_8 = fill_row 0 composite_8 v.pallete_lookup_8;
  pallete_lookup_16 = fill_row 0 composite_16 v.pallete_lookup_16;
  pallete_lookup_32 = fill_row 0 composite_32 v.pallete_lookup_32;
}
