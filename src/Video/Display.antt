-- ===== src/Video/Display.antt =====
-- What a line of a graphics mode looks like after `UpdateScreen8`, `UpdateScreen16` and
-- `UpdateScreen32` of emulation/tcc1014graphics.cpp.
use cutiecoco.Base.{
  ℕ, ◌+◌, ◌*◌, ◌/◌, ◌%◌, ◌^◌, ◌≤◌, ◌<◌, ◌≡◌, ◌≢◌, ◌⊎◌, inl, inr, refl, ap, ap₂, sym, ◌∙◌, subst,
  true, false, ◌==◌, some, length, get_or, arith, Bool-cases, List,
}
use cutiecoco.Video.{Video, Host}
use cutiecoco.Video.Raster.{rounds, words, wide_pixel}
use cutiecoco.Video.Cases.{case_of}
use cutiecoco.Video.Lines.{begin_line, first_cursor}
use cutiecoco.Video.Overlay.{overlay, overlay-hit, overlay-miss}
use cutiecoco.Video.Drawing.{Shows, lay, beams-Shows, length-picture}
use cutiecoco.Video.Shapes.{Shape, shape, Width, one, two, four, per_word, paint_of}
use cutiecoco.Video.Fields.{per_byte}
use cutiecoco.Video.Pixels.{line_picture, length-paint_of}
use cutiecoco.Video.Modes.{IsMode, mode_of, Suits, is_artifacts, mode-fills, mode-draws}
use cutiecoco.Video.Ready.{mode-even, HasLines, HasMode, IsReady}
use cutiecoco.Video.Invariant.{begin_line-IsReady}

-- A graphics mode that is neither the one of the artifacts nor the undefined depth, on a line of
-- at most 640 pixels.
unfoldable pub IsGraphics : Video → Type 0
IsGraphics v =
    (v.graphics_mode ≡ 1)
    × (v.bpp ≢ 3)
    × (v.pixels_per_line ≤ 640)
    × (is_artifacts (case_of v.master_mode) ≡ false)

-- The first index of the line within its borders.
abbrev pub line_base : Video → Host → ℕ
line_base v h = (h.line_counter + v.vert_center) * 2 * h.surface_pitch + v.horz_center

-- Both rows of the line lie below `limit` on a surface of at least 640 columns.
unfoldable pub HasRoom : ℕ → Video → Host → Type 0
HasRoom limit v h =
    (640 ≤ h.surface_pitch) × (((h.line_counter + v.vert_center) * 2 + 2) * h.surface_pitch ≤ limit)

abbrev pub picture_of : Shape → (ℕ → ℕ) → Video → Host → List ℕ
picture_of s palette v h = line_picture s palette v h (rounds v.bytes_per_row 2)

pub IsReady-Suits :
    (v : Video)
    → IsReady v
    → IsGraphics v
    → (s : Shape) × ((shape (case_of v.master_mode) ≡ some s)
        × Suits v.compat_mode v.stretch v.pixels_per_byte s)
unfolding IsReady HasMode IsGraphics Suits
IsReady-Suits v (_, _, (mode, pixels, per, stretched, centered, number))
      (graphics, colors, narrow, plain) =
    let master = number ∙ ap (λ g. mode_of g v.compat_mode v.bytes_per_row v.bpp) graphics in
    let (s, (found, suits)) =
      mode-draws v.compat_mode v.bytes_per_row v.bpp
        (subst (λ g. IsMode g v.compat_mode v.bytes_per_row v.bpp) graphics mode)
        (subst (λ n. n ≤ 640) pixels narrow) colors
        (subst (λ m. is_artifacts (case_of m) ≡ false) master plain) in
    (
      s,
      (
        ap (λ m. shape (case_of m)) master ∙ found,
        (suits.0, suits.1 ∙ ap (λ k. k + 1) (sym stretched), suits.2 ∙ sym per),
      ),
    )

double_word : (w : Width) → per_word w ≡ 2 * per_byte w
double_word one = refl
double_word two = refl
double_word four = refl

-- Half as many words as bytes, of twice as many pixels.
words-width : (bytes per n : ℕ) → bytes % 2 ≡ 0 → rounds bytes 2 * (2 * per * n) ≡ bytes * per * n
words-width bytes per n even =
    let half : rounds bytes 2 ≡ bytes / 2 = omega arith in
    let double : bytes / 2 * 2 ≡ bytes = omega arith in
    ap (λ k. k * (2 * per * n)) half ∙ grouped (bytes / 2) per n ∙ ap (λ k. k * per * n) double
  where
    grouped : (a b c : ℕ) → a * (2 * b * c) ≡ a * 2 * b * c
    grouped a b c = grind arith

pub line_width :
    (v : Video) (s : Shape) (palette : ℕ → ℕ) (h : Host)
    → IsReady v
    → Suits v.compat_mode v.stretch v.pixels_per_byte s
    → length (picture_of s palette v h) ≡ v.pixels_per_line * (v.stretch + 1)
unfolding IsReady HasMode HasLines Suits
line_width v s palette h ready (_, repeats, per) =
    let (_, _, (mode, pixels, per_byte_of, _, _, _)) = ready in
    let weight : per_word s.width * s.repeat ≡ 2 * v.pixels_per_byte * (v.stretch + 1) =
      ap₂ (λ a b. a * b) (double_word s.width ∙ ap (λ k. 2 * k) per) repeats in
    length-picture (λ b. paint_of s palette v (wide_pixel v h b)) (per_word s.width * s.repeat)
      (rounds v.bytes_per_row 2) 0 2 (λ b. length-paint_of s palette v (wide_pixel v h b))
    ∙ ap (λ k. rounds v.bytes_per_row 2 * k) weight
    ∙ words-width v.bytes_per_row v.pixels_per_byte (v.stretch + 1) (mode-even _ _ _ _ mode)
    ∙ ap (λ k. k * (v.stretch + 1)) (ap (λ k. v.bytes_per_row * k) per_byte_of ∙ sym pixels)

-- The stretched line and its two borders fill the window.
pub line-fills :
    (v : Video)
    → IsReady v
    → IsGraphics v
    → v.pixels_per_line * (v.stretch + 1) + 2 * v.horz_center ≡ 640
unfolding IsReady HasMode IsGraphics
line-fills v (_, _, (mode, pixels, _, stretched, centered, _)) (_, _, narrow, _) =
    ap₂ (λ line center. line + 2 * center) (ap₂ (λ a b. a * (b + 1)) pixels stretched) centered
    ∙ mode-fills _ _ _ _ mode (subst (λ n. n ≤ 640) pixels narrow)

-- The stretched line and the left border fit into a row.
pub line-fits :
    (v : Video)
    → IsReady v
    → IsGraphics v
    → v.pixels_per_line * (v.stretch + 1) + v.horz_center ≤ 640
line-fits v ready graphics = omega (arith, line-fills v ready graphics)

room_below :
    (row pitch center line : ℕ) (limit : ℕ)
    → 640 ≤ pitch
    → line + center ≤ 640
    → (row * 2 + 2) * pitch ≤ limit
    → row * 2 * pitch + center + pitch + line ≤ limit
room_below row pitch center line limit wide fits room =
    let split : (row * 2 + 2) * pitch ≡ row * 2 * pitch + 2 * pitch = grind arith in
    omega (arith, split)

-- Elsewhere nothing was laid.
pub lay-miss :
    (h : Host) (base : ℕ) (xs : List ℕ) (f : ℕ → ℕ) (i : ℕ)
    → (i < base) ⊎ (base + h.surface_pitch + length xs ≤ i)
    → lay h base xs f i ≡ f i
unfolding lay
lay-miss h base xs f i outside = elim (Bool-cases (h.scan_lines == 0)) [
  | inl double ↦ rw double (
      overlay-miss (base + h.surface_pitch) xs (overlay base xs f) i (ground (arith, outside))
      ∙ overlay-miss base xs f i (ground (arith, outside)))
  | inr single ↦ rw single (overlay-miss base xs f i (ground (arith, outside)))
]

-- Reading what was laid: the same pixel on both rows.
pub lay-read :
    (h : Host) (base x k : ℕ) (xs : List ℕ) (f : ℕ → ℕ)
    → x < length xs
    → length xs ≤ h.surface_pitch
    → (k ≡ 0) ⊎ ((k ≡ 1) × (h.scan_lines ≡ 0))
    → lay h base xs f (base + k * h.surface_pitch + x) ≡ get_or xs x 0
unfolding lay
lay-read h base x k xs f inside fits (inl first) =
    let lower = base + h.surface_pitch in
    let place : base + k * h.surface_pitch + x ≡ base + x =
      ap (λ n. base + n * h.surface_pitch + x) first ∙ omega arith in
    elim (Bool-cases (h.scan_lines == 0)) [
      | inl double ↦ rw double (
          overlay-miss lower xs (overlay base xs f) _ (inl (omega (arith, place)))
          ∙ overlay-hit base xs f _ x place inside)
      | inr single ↦ rw single (overlay-hit base xs f _ x place inside)
    ]
lay-read h base x k xs f inside fits (inr (second, double)) =
    let place : base + k * h.surface_pitch + x ≡ base + h.surface_pitch + x =
      ap (λ n. base + n * h.surface_pitch + x) second ∙ omega arith in
    let test : (h.scan_lines == 0) ≡ true = ground (arith, double) in
    rw test (overlay-hit (base + h.surface_pitch) xs (overlay base xs f) _ x place inside)

module _ (element : ℕ → ℕ) (limit : ℕ) (small : limit < 2 ^ 31)
    (within : (i : ℕ) → i < limit → element i ≡ i) where
  -- The loop of a graphics mode, from the first pixel of the line.
  pub words-surface :
      (depth : ℕ) (v : Video) (h : Host) (s : Shape) (palette f : ℕ → ℕ)
      → IsReady v
      → IsGraphics v
      → Suits v.compat_mode v.stretch v.pixels_per_byte s
      → HasRoom limit v h
      → (words element
          (begin_line v h)
          h
          (paint_of s palette (begin_line v h))
          (first_cursor depth v h f)).surface
        ≡ lay h (line_base v h) (picture_of s palette (begin_line v h) h) f
  unfolding words first_cursor Shows HasRoom begin_line Suits
  words-surface depth v h s palette f ready graphics suits (wide, room) =
      let fits = line-fits v ready graphics in
      let size = line_width (begin_line v h) s palette h (begin_line-IsReady v h ready) suits in
      let below =
        room_below (h.line_counter + v.vert_center) h.surface_pitch v.horz_center
          (v.pixels_per_line * (v.stretch + 1)) limit wide fits room in
      (beams-Shows element limit small within h
        (λ b. paint_of s palette (begin_line v h) (wide_pixel (begin_line v h) h b))
        (rounds v.bytes_per_row 2) 0 2 (line_base v h) f (first_cursor depth v h f)
        (omega arith, omega arith, refl) (omega (arith, size)) (omega (arith, size))).2
