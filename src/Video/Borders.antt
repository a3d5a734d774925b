-- ===== src/Video/Borders.antt =====
-- emulation/tcc1014graphics.cpp: the borders. `side_borders` is the loop at the head of
-- `UpdateScreen8`, `UpdateScreen16` and `UpdateScreen32`; the functions of 24 bits draw nothing
-- and are left out. `unsigned short x` counts to `WindowSize.w` when that is below 65536.
use cutiecoco.Base.{ℕ, zero, suc, ◌+◌, ◌*◌, leb, ◌==◌, if◌then◌else◌}
use cutiecoco.Base.Bits.{set_bit}
use cutiecoco.Base.Maps.{update}
use cutiecoco.Video.{Video, Host}

-- `count` elements from an index on.
unfoldable pub fill : (count index color : ℕ) → (ℕ → ℕ) → ℕ → ℕ
fill zero index color surface = surface
fill (suc count) index color surface = fill count (suc index) color (update surface index color)

-- The rows of a line start at twice its number.
abbrev pub first_row : Host → ℕ → ℕ
first_row h line = line * 2 * h.surface_pitch

module _ (element : ℕ → ℕ) (color : ℕ) (h : Host) where
  -- A write on the row of an index, and on the next row unless the scan lines are on.
  unfoldable pub both_rows : (index : ℕ) → (ℕ → ℕ) → ℕ → ℕ
  both_rows index surface =
      let once = update surface (element index) color in
      if h.scan_lines == 0 then update once (element (index + h.surface_pitch)) color else once

  -- The loop of the side borders, for the columns from `x` on.
  unfoldable pub sides : (right row count x : ℕ) → (ℕ → ℕ) → ℕ → ℕ
  unfolding both_rows
  sides right row zero x surface = surface
  sides right row (suc count) x surface =
      sides right row count (suc x) (both_rows (x + right + row) (both_rows (x + row) surface))

  unfoldable pub side_borders : Video → (ℕ → ℕ) → ℕ → ℕ
  unfolding sides
  side_borders v surface =
      if v.border_change == 0
      then surface
      else sides (v.pixels_per_line * (v.stretch + 1) + v.horz_center)
          (first_row h (h.line_counter + v.vert_center)) v.horz_center 0 surface

  unfoldable pub top : (count x : ℕ) → (ℕ → ℕ) → ℕ → ℕ
  unfolding both_rows
  top zero x surface = surface
  top (suc count) x surface = top count (suc x) (both_rows (x + first_row h h.line_counter) surface)

unfoldable pub draw_top_border_8 : Video → Host → Host
unfolding top
draw_top_border_8 v h =
    if v.border_change == 0
    then h
    else record h { surface = top (λ i. i) (set_bit v.border_color_8 7) h h.window_w 0 h.surface }

unfoldable pub draw_top_border_16 : Video → Host → Host
unfolding top
draw_top_border_16 v h =
    if v.border_change == 0
    then h
    else record h { surface = top (λ i. i) v.border_color_16 h h.window_w 0 h.surface }

unfoldable pub draw_top_border_32 : Video → Host → Host
unfolding top
draw_top_border_32 v h =
    if v.border_change == 0
    then h
    else record h { surface = top (λ i. i) v.border_color_32 h h.window_w 0 h.surface }

-- The common body of the bottom borders, with its range check.
abbrev pub bottom_row : Video → Host → ℕ
bottom_row v h = 2 * (v.lines_per_screen + v.vert_center + h.line_counter)

unfoldable pub bottom : (color : ℕ) → Video → Host → Host
unfolding fill
bottom color v h =
    if v.border_change == 0 then h else if leb h.window_h (bottom_row v h) then h else record h {
      surface =
          fill (if h.scan_lines == 0 then h.window_w * 2 else h.window_w)
            (h.surface_pitch * bottom_row v h) color h.surface;
    }

unfoldable pub draw_bottom_border_8 : Video → Host → Host
draw_bottom_border_8 v h = bottom (set_bit v.border_color_8 7) v h

unfoldable pub draw_bottom_border_16 : Video → Host → Host
draw_bottom_border_16 v h = bottom v.border_color_16 v h

unfoldable pub draw_bottom_border_32 : Video → Host → Host
draw_bottom_border_32 v h = bottom v.border_color_32 v h
