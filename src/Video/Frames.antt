-- ===== src/Video/Frames.antt =====
-- The lines that `UpdateScreen8`, `UpdateScreen16` and `UpdateScreen32` of
-- emulation/tcc1014graphics.cpp draw in a graphics mode, and the rest of the surface.
use cutiecoco.Base.{
  ℕ, zero, suc, ◌+◌, ◌*◌, ◌≤◌, ◌<◌, ◌≡◌, ◌⊎◌, ◌≢◌, inl, inr, refl, ap, ◌∙◌, ◌==◌, some, arith,
  Bool-cases,
}
use cutiecoco.Base.Maps.{update, update_ne}
use cutiecoco.Video.{Video, Host}
use cutiecoco.Video.Raster.{bare, video_array}
use cutiecoco.Video.Cases.{case_of}
use cutiecoco.Video.Borders.{both_rows, sides, side_borders, first_row}
use cutiecoco.Video.Lines.{begin_line, first_cursor, end_line}
use cutiecoco.Video.Drawing.{lay}
use cutiecoco.Video.Shapes.{Shape, shape, draw8_lem, draw16_lem, draw32_lem}
use cutiecoco.Video.Pixels.{AreBytes}
use cutiecoco.Video.Modes.{Suits}
use cutiecoco.Video.Ready.{IsReady}
use cutiecoco.Video.Invariant.{begin_line-IsReady}
use cutiecoco.Video.Display.{
  IsGraphics, HasRoom, line_base, picture_of, IsReady-Suits, line_width, line-fits, line-fills,
  lay-miss, words-surface,
}
use cutiecoco.Video.Columns.{shade, column_value, laid}
use cutiecoco.Video.Screen8
use cutiecoco.Video.Screen16
use cutiecoco.Video.Screen32

abbrev pub screen : ℕ
screen = 640 * 480

update_screen8-surface :
    (v : Video) (h : Host) (s : Shape)
    → IsReady v
    → IsGraphics v
    → shape (case_of v.master_mode) ≡ some s
    → Suits v.compat_mode v.stretch v.pixels_per_byte s
    → HasRoom screen v h
    → (Screen8.update_screen v h).1.surface
      ≡ lay h
          (line_base v h)
          (picture_of s v.pallete_8bit (begin_line v h) h)
          (side_borders bare v.border_color_8 h v h.surface)
unfolding Screen8.update_screen end_line begin_line
update_screen8-surface v h s ready graphics found suits room =
    let framed = side_borders bare v.border_color_8 h v h.surface in
    ap (λ c. c.surface)
      (draw8_lem (begin_line v h) h (case_of v.master_mode) s (first_cursor 8 v h framed) found)
    ∙ words-surface bare screen (omega arith) (λ i below. refl) 8 v h s v.pallete_8bit framed ready
        graphics suits room

update_screen16-surface :
    (v : Video) (h : Host) (s : Shape)
    → IsReady v
    → IsGraphics v
    → shape (case_of v.master_mode) ≡ some s
    → Suits v.compat_mode v.stretch v.pixels_per_byte s
    → HasRoom screen v h
    → (Screen16.update_screen v h).1.surface
      ≡ lay h
          (line_base v h)
          (picture_of s v.pallete_16bit (begin_line v h) h)
          (side_borders bare v.border_color_16 h v h.surface)
unfolding Screen16.update_screen end_line begin_line
update_screen16-surface v h s ready graphics found suits room =
    let framed = side_borders bare v.border_color_16 h v h.surface in
    ap (λ c. c.surface)
      (draw16_lem (begin_line v h) h (case_of v.master_mode) s (first_cursor 16 v h framed) found)
    ∙ words-surface bare screen (omega arith) (λ i below. refl) 16 v h s v.pallete_16bit framed
        ready graphics suits room

update_screen32-surface :
    (v : Video) (h : Host) (s : Shape)
    → IsReady v
    → IsGraphics v
    → shape (case_of v.master_mode) ≡ some s
    → Suits v.compat_mode v.stretch v.pixels_per_byte s
    → HasRoom screen v h
    → (Screen32.update_screen v h).1.surface
      ≡ lay h
          (line_base v h)
          (picture_of s v.pallete_32bit (begin_line v h) h)
          (side_borders video_array v.border_color_32 h v h.surface)
unfolding Screen32.update_screen end_line begin_line
update_screen32-surface v h s ready graphics found suits room =
    let framed = side_borders video_array v.border_color_32 h v h.surface in
    ap (λ c. c.surface)
      (draw32_lem (begin_line v h) h (case_of v.master_mode) s (first_cursor 32 v h framed) found)
    ∙ words-surface video_array screen (omega arith) (λ i below. omega arith) 32 v h s
        v.pallete_32bit framed ready graphics suits room

-- In a graphics mode on a line of at most 640 pixels, other than the artifact mode and the
-- undefined depth, of a display that is ready and a RAM of bytes, when both rows of the line lie
-- on the surface of 640 by 480 and the pitch is at least 640: all three functions show at column
-- `x` of the stretched line, on its first row and, without scan lines, on its second, the value of
-- the pixel `x / (stretch + 1)` of the line, which is read from the RAM at the line's address, in
-- their own palette, counted from the palette index in the modes of the Color Computer 2.
pub update_screen-columns :
    (v : Video) (h : Host) (x k : ℕ)
    → IsReady v
    → IsGraphics v
    → AreBytes h.ram_buffer
    → HasRoom screen v h
    → x < v.pixels_per_line * (v.stretch + 1)
    → (k ≡ 0) ⊎ ((k ≡ 1) × (h.scan_lines ≡ 0))
    → ((Screen8.update_screen v h).1.surface (line_base v h + k * h.surface_pitch + x)
        ≡ shade v.pallete_8bit v (column_value v h x))
      × ((Screen16.update_screen v h).1.surface (line_base v h + k * h.surface_pitch + x)
          ≡ shade v.pallete_16bit v (column_value v h x))
      × ((Screen32.update_screen v h).1.surface (line_base v h + k * h.surface_pitch + x)
          ≡ shade v.pallete_32bit v (column_value v h x))
unfolding HasRoom
update_screen-columns v h x k ready graphics bytes room inside row =
    let (s, (found, suits)) = IsReady-Suits v ready graphics in
    let place = line_base v h + k * h.surface_pitch + x in
    let column = λ (palette f : ℕ → ℕ).
      laid v h s palette f x k ready graphics suits bytes room.0 inside row in
    (
      ap (λ f. f place) (update_screen8-surface v h s ready graphics found suits room)
          ∙ column v.pallete_8bit _,
      ap (λ f. f place) (update_screen16-surface v h s ready graphics found suits room)
          ∙ column v.pallete_16bit _,
      ap (λ f. f place) (update_screen32-surface v h s ready graphics found suits room)
          ∙ column v.pallete_32bit _,
    )

-- An index above or below the two rows of a line.
abbrev pub IsOutside : Video → Host → ℕ → Type 0
IsOutside v h i =
    (i < first_row h (h.line_counter + v.vert_center))
    ⊎ (first_row h (h.line_counter + v.vert_center) + 2 * h.surface_pitch ≤ i)

module _ (element : ℕ → ℕ) (within : (i : ℕ) → i < screen → element i ≡ i) where
  both_rows-frame :
      (color : ℕ) (h : Host) (index i : ℕ) (f : ℕ → ℕ)
      → index + h.surface_pitch < screen
      → i ≢ index
      → i ≢ index + h.surface_pitch
      → both_rows element color h index f i ≡ f i
  unfolding both_rows
  both_rows-frame color h index i f small first second =
      let here = within index (omega arith) in
      let below = within (index + h.surface_pitch) small in
      let once = update_ne f (element index) i color (λ e. first (e ∙ here)) in
      elim (Bool-cases (h.scan_lines == 0)) [
        | inl double ↦ rw double (
            update_ne (update f (element index) color) (element (index + h.surface_pitch)) i color
              (λ e. second (e ∙ below))
            ∙ once)
        | inr single ↦ rw single once
      ]

  sides-frame :
      (color : ℕ) (h : Host) (right row count x i : ℕ) (f : ℕ → ℕ)
      → right + x + count ≤ h.surface_pitch
      → row + 2 * h.surface_pitch ≤ screen
      → (i < row) ⊎ (row + 2 * h.surface_pitch ≤ i)
      → sides element color h right row count x f i ≡ f i
  unfolding sides
  sides-frame color h right row zero x i f narrow room outside = refl
  sides-frame color h right row (suc count) x i f narrow room outside =
      sides-frame color h right row count (suc x) i _ (omega arith) room outside
      ∙ both_rows-frame color h (x + right + row) i _ (omega arith) (ground (arith, outside))
          (ground (arith, outside))
      ∙ both_rows-frame color h (x + row) i f (omega arith) (ground (arith, outside))
          (ground (arith, outside))

  -- The whole line with its side borders stays on its two rows.
  line-frame :
      (color : ℕ) (v : Video) (h : Host) (s : Shape) (palette : ℕ → ℕ) (i : ℕ)
      → IsReady v
      → IsGraphics v
      → Suits v.compat_mode v.stretch v.pixels_per_byte s
      → HasRoom screen v h
      → IsOutside v h i
      → lay h
          (line_base v h)
          (picture_of s palette (begin_line v h) h)
          (side_borders element color h v h.surface)
          i
        ≡ h.surface i
  unfolding side_borders HasRoom begin_line
  line-frame color v h s palette i ready graphics suits (wide, room) outside =
      let next = begin_line-IsReady v h ready in
      let size = line_width (begin_line v h) s palette h next suits in
      let fits = line-fits v ready graphics in
      let full = line-fills v ready graphics in
      let split : ((h.line_counter + v.vert_center) * 2 + 2) * h.surface_pitch
          ≡ first_row h (h.line_counter + v.vert_center) + 2 * h.surface_pitch =
        grind arith in
      lay-miss h (line_base v h) (picture_of s palette (begin_line v h) h) _ i
        (ground (arith, size, fits, outside, wide))
      ∙ elim (Bool-cases (v.border_change == 0)) [
        | inl still ↦ rw still refl
        | inr drawn ↦ rw drawn (
            sides-frame color h (v.pixels_per_line * (v.stretch + 1) + v.horz_center)
              (first_row h (h.line_counter + v.vert_center)) v.horz_center 0 i h.surface
              (omega (arith, full)) (omega (arith, split)) outside)
      ]

-- Under the same conditions, all three functions change only the two rows of the line: the side
-- borders and the picture stay within them.
pub update_screen-frame :
    (v : Video) (h : Host) (i : ℕ)
    → IsReady v
    → IsGraphics v
    → HasRoom screen v h
    → IsOutside v h i
    → ((Screen8.update_screen v h).1.surface i ≡ h.surface i)
      × ((Screen16.update_screen v h).1.surface i ≡ h.surface i)
      × ((Screen32.update_screen v h).1.surface i ≡ h.surface i)
update_screen-frame v h i ready graphics room outside =
    let (s, (found, suits)) = IsReady-Suits v ready graphics in
    (
      ap (λ f. f i) (update_screen8-surface v h s ready graphics found suits room)
          ∙ line-frame bare (λ j below. refl) v.border_color_8 v h s v.pallete_8bit i ready graphics
              suits room outside,
      ap (λ f. f i) (update_screen16-surface v h s ready graphics found suits room)
          ∙ line-frame bare (λ j below. refl) v.border_color_16 v h s v.pallete_16bit i ready
              graphics suits room outside,
      ap (λ f. f i) (update_screen32-surface v h s ready graphics found suits room)
          ∙ line-frame video_array (λ j below. omega arith) v.border_color_32 v h s v.pallete_32bit
              i ready graphics suits room outside,
    )
