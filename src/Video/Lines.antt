-- ===== src/Video/Lines.antt =====
-- emulation/tcc1014graphics.cpp: what `UpdateScreen8`, `UpdateScreen16` and `UpdateScreen32` do
-- before the switch: the row of the display that the line belongs to, and where it starts in
-- the video RAM and on the surface.
use cutiecoco.Base.{ℕ, ◌+◌, ◌-◌, ◌*◌, ◌/◌, ◌^◌, ltb, ◌==◌, if◌then◌else◌}
use cutiecoco.Base.Bits.{u16}
use cutiecoco.Base.Maps.{update}
use cutiecoco.Video.{Video, Host}
use cutiecoco.Video.Raster.{Cursor, u32}

-- `TagY` counts the lines, and the first line of a frame takes the new start of the video RAM.
unfoldable pub next_tag : Video → Host → ℕ
next_tag v h =
    if h.line_counter == 0 then 0 else if ltb v.lines_per_row 13 then u16 (v.tag_y + 1) else v.tag_y

unfoldable pub begin_line : Video → Host → Video
unfolding next_tag
begin_line v h =
    let origin = if h.line_counter == 0 then v.new_start_of_vidram else v.start_of_vidram in
    record v {
      start_of_vidram = origin;
      tag_y = next_tag v h;
      start = u32 (origin + next_tag v h / v.lines_per_row * (v.vpitch * v.extended_text));
    }

-- Where the cursor stands before the first pixel. `Carry2` is what the last line left.
unfoldable pub first_cursor : (depth : ℕ) → Video → Host → (ℕ → ℕ) → Cursor
first_cursor depth v h surface = record {
  surface = surface;
  stride =
      u32 ((h.line_counter + v.vert_center) * 2 * h.surface_pitch + v.horz_center + 2 ^ 32 - 1);
  carry1 = 1;
  carry2 = v.carry2 depth;
  pcolor = 0;
}

-- What the function leaves behind.
unfoldable pub end_line : (depth : ℕ) → Video → Host → Cursor → Video × Host
end_line depth v h c =
    (record v { carry2 = update v.carry2 depth c.carry2 }, record h { surface = c.surface })
