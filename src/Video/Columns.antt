-- ===== src/Video/Columns.antt =====
-- The colour of every column of a line of a graphics mode after `UpdateScreen8`, `UpdateScreen16`
-- and `UpdateScreen32` of emulation/tcc1014graphics.cpp, and what they leave alone.
use cutiecoco.Base.{
  ℕ, ◌+◌, ◌*◌, ◌/◌, ◌%◌, ◌≤◌, ◌<◌, ◌≡◌, ◌⊎◌, refl, ap, ap₂, sym, ◌∙◌, ◌==◌, if◌then◌else◌, arith,
}
use cutiecoco.Video.{Video, Host}
use cutiecoco.Video.Raster.{rounds, wide_pixel}
use cutiecoco.Video.Lines.{next_tag, begin_line}
use cutiecoco.Video.Drawing.{lay, length-picture}
use cutiecoco.Video.Shapes.{Shape, Width, one, two, four, per_word, color_of, paint_of}
use cutiecoco.Video.Fields.{per_byte}
use cutiecoco.Video.Pixels.{IsAligned, AreBytes, source_pixel, line_picture-pixel, length-paint_of}
use cutiecoco.Video.Modes.{Suits}
use cutiecoco.Video.Ready.{HasInputs, HasLines, IsReady}
use cutiecoco.Video.Invariant.{begin_line-IsReady}
use cutiecoco.Video.Display.{IsGraphics, line_base, picture_of, line_width, line-fits, lay-read}

-- The width of a pixel by the pixels of a byte.
abbrev pub width_of : ℕ → Width
width_of per = if per == 8 then one else if per == 4 then two else four

width_of-per_byte : (w : Width) → width_of (per_byte w) ≡ w
width_of-per_byte one = refl
width_of-per_byte two = refl
width_of-per_byte four = refl

-- A value in the colours of the mode.
abbrev pub shade : (palette : ℕ → ℕ) → Video → ℕ → ℕ
shade palette v i = if v.compat_mode then palette (v.pallete_index + i) else palette i

-- The value that the column `x` of the line shows, from the byte of the RAM that it belongs to.
abbrev pub column_value : Video → Host → (x : ℕ) → ℕ
column_value v h x =
    source_pixel (width_of v.pixels_per_byte) (begin_line v h) h (x / (v.stretch + 1))

even_product : (a b c : ℕ) → b % 2 ≡ 0 → a * (b * c) % 2 ≡ 0
even_product a b c even =
    let double : b ≡ 2 * (b / 2) = omega arith in
    let split = ap (λ k. a * (k * c)) double ∙ regrouped a (b / 2) c in omega (arith, split)
  where
    regrouped : (x y z : ℕ) → x * (2 * y * z) ≡ 2 * (x * (y * z))
    regrouped x y z = grind arith

line-IsAligned : (v : Video) (h : Host) → IsReady v → IsAligned (begin_line v h)
unfolding begin_line IsReady HasInputs HasLines IsAligned
line-IsAligned v h ((_, start, _, hoffset, mask), (_, _, fresh, pitch), _) =
    let rows = even_product (next_tag v h / v.lines_per_row) v.vpitch v.extended_text pitch in
    (ground (arith, rows, start, fresh), hoffset, mask)

-- A picture laid on the surface shows the values of its columns.
pub laid :
    (v : Video) (h : Host) (s : Shape) (palette f : ℕ → ℕ) (x k : ℕ)
    → IsReady v
    → IsGraphics v
    → Suits v.compat_mode v.stretch v.pixels_per_byte s
    → AreBytes h.ram_buffer
    → 640 ≤ h.surface_pitch
    → x < v.pixels_per_line * (v.stretch + 1)
    → (k ≡ 0) ⊎ ((k ≡ 1) × (h.scan_lines ≡ 0))
    → lay h
        (line_base v h)
        (picture_of s palette (begin_line v h) h)
        f
        (line_base v h + k * h.surface_pitch + x)
      ≡ shade palette v (column_value v h x)
unfolding Suits begin_line color_of
laid v h s palette f x k ready graphics suits bytes wide inside row =
    let next = begin_line-IsReady v h ready in
    let size = line_width (begin_line v h) s palette h next suits in
    let fits = line-fits v ready graphics in
    let (flag, repeats, per) = suits in
    let count =
      length-picture (λ b. paint_of s palette (begin_line v h) (wide_pixel (begin_line v h) h b))
        (per_word s.width * s.repeat) (rounds v.bytes_per_row 2) 0 2
        (λ b. length-paint_of s palette (begin_line v h) (wide_pixel (begin_line v h) h b)) in
    let width = sym (width_of-per_byte s.width) ∙ ap width_of per in
    let value = ap₂ (λ w n. source_pixel w (begin_line v h) h (x / n)) width repeats in
    lay-read h (line_base v h) x k (picture_of s palette (begin_line v h) h) f (omega (arith, size))
      (omega (arith, size)) row
    ∙ line_picture-pixel s palette (begin_line v h) h (rounds v.bytes_per_row 2) x
        (line-IsAligned v h ready) bytes (omega (arith, repeats)) (omega (arith, size, count))
    ∙ ap (λ i. if s.indexed then palette (v.pallete_index + i) else palette i) value
    ∙ ap
        (λ b.
          if b
          then palette (v.pallete_index + column_value v h x)
          else palette (column_value v h x))
        flag
