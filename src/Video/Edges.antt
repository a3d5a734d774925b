-- ===== src/Video/Edges.antt =====
-- The range check of the bottom borders of emulation/tcc1014graphics.cpp.
use cutiecoco.Base.{
  ℕ, zero, suc, ◌+◌, ◌*◌, ◌%◌, ◌≤◌, ◌<◌, ◌≡◌, ◌⊎◌, inl, inr, refl, ◌∙◌, leb, ◌==◌, if◌then◌else◌,
  arith, Bool-cases,
}
use cutiecoco.Base.Maps.{update, update_ne}
use cutiecoco.Video.{Video, Host}
use cutiecoco.Video.Borders.{
  fill, bottom, bottom_row, draw_bottom_border_8, draw_bottom_border_16, draw_bottom_border_32,
}

fill-frame :
    (count index color i : ℕ) (f : ℕ → ℕ)
    → (i < index) ⊎ (index + count ≤ i)
    → fill count index color f i ≡ f i
unfolding fill
fill-frame zero index color i f outside = refl
fill-frame (suc count) index color i f outside =
    fill-frame count (suc index) color i (update f index color) (ground (arith, outside))
    ∙ update_ne f index i color (ground (arith, outside))

mul-le : (a b c : ℕ) → a ≤ b → c * a ≤ c * b
mul-le a b c h = grind arith

room :
    (row height pitch width : ℕ)
    → 2 * row < height
    → height % 2 ≡ 0
    → width ≤ pitch
    → pitch * (2 * row) + width * 2 ≤ pitch * height
room row height pitch width below even wide =
    let fits : 2 * row + 2 ≤ height = omega arith in
    let all = mul-le (2 * row + 2) height pitch fits in
    let split : pitch * (2 * row + 2) ≡ pitch * (2 * row) + pitch * 2 = grind arith in
    omega (arith, all, split)

bottom-frame :
    (color i : ℕ) (v : Video) (h : Host)
    → h.window_h % 2 ≡ 0
    → h.window_w ≤ h.surface_pitch
    → (i < h.surface_pitch * bottom_row v h) ⊎ (h.surface_pitch * h.window_h ≤ i)
    → (bottom color v h).surface i ≡ h.surface i
unfolding bottom
bottom-frame color i v h even wide outside = elim (Bool-cases (v.border_change == 0)) [
  | inl still ↦ rw still refl
  | inr drawn ↦ rw drawn (elim (Bool-cases (leb h.window_h (bottom_row v h))) [
    | inl beyond ↦ rw beyond refl
    | inr inside ↦ rw inside (
        let below : bottom_row v h < h.window_h = ground (arith, inside) in
        let fits =
          room (v.lines_per_screen + v.vert_center + h.line_counter) h.window_h h.surface_pitch
            h.window_w below even wide in
        fill-frame (if h.scan_lines == 0 then h.window_w * 2 else h.window_w)
          (h.surface_pitch * bottom_row v h) color i h.surface (ground (arith, outside, fits)))
  ])
]

-- In a window of an even height and no wider than the pitch, whatever the lines of the screen and
-- the line counter are, the bottom border of each of the three depths changes no element above its
-- own row and none from the end of the window's rows on.
pub draw_bottom_border-frame :
    (i : ℕ) (v : Video) (h : Host)
    → h.window_h % 2 ≡ 0
    → h.window_w ≤ h.surface_pitch
    → (i < h.surface_pitch * bottom_row v h) ⊎ (h.surface_pitch * h.window_h ≤ i)
    → ((draw_bottom_border_8 v h).surface i ≡ h.surface i)
      × ((draw_bottom_border_16 v h).surface i ≡ h.surface i)
      × ((draw_bottom_border_32 v h).surface i ≡ h.surface i)
unfolding draw_bottom_border_8 draw_bottom_border_16 draw_bottom_border_32
draw_bottom_border-frame i v h even wide outside = (
  bottom-frame _ i v h even wide outside,
  bottom-frame _ i v h even wide outside,
  bottom-frame _ i v h even wide outside,
)
