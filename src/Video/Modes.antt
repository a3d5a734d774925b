-- ===== src/Video/Modes.antt =====
-- What `SetupDisplay` of emulation/tcc1014graphics.cpp computes, against the modes that
-- `UpdateScreen8`, `UpdateScreen16` and `UpdateScreen32` draw: the mode number selects the loop
-- whose pixels have the width and the repetition that the other variables say.
use cutiecoco.Base.{
  ℕ, ◌+◌, ◌*◌, ◌/◌, ◌%◌, ◌≤◌, ◌<◌, ◌≡◌, ◌≢◌, refl, ap₂, sym, ◌∙◌, Bool, true, false, not, ◌&&◌,
  ◌||◌, Option, none, some, ltb, ◌==◌, if◌then◌else◌, arith, ==_iff,
}
use cutiecoco.Base.Tables.{scan_below, scan_below_lem}
use cutiecoco.Video.Setup.{
  cc2_bpp, cc2_bytes_per_row, cc3_bytes_per_row, cc3_bytes_per_text_row, cc_pixels_per_byte,
  stretch_of, horz_center_of,
}
use cutiecoco.Video.Cases.{Case, artifacts, case_of}
use cutiecoco.Video.Shapes.{Shape, shape}
use cutiecoco.Video.Fields.{per_byte}

-- The combinations of bytes per row and bits per pixel that the tables of `SetupDisplay` give.
pub data IsMode : (graphics : ℕ) (compat : Bool) (bytes bpp : ℕ) → Type 0 where
  coco3_text : (row : ℕ) → row < 8 → IsMode 0 false (cc3_bytes_per_text_row row) 0
  coco3_graphics : (row bpp : ℕ) → row < 8 → bpp < 4 → IsMode 1 false (cc3_bytes_per_row row) bpp
  coco2_text : IsMode 0 true 32 0
  coco2_graphics : (kind : ℕ) → kind < 8 → IsMode 1 true (cc2_bytes_per_row kind) (cc2_bpp kind)

abbrev pub pixels_of : (bytes bpp : ℕ) → ℕ
pixels_of bytes bpp = bytes * cc_pixels_per_byte bpp

-- `MasterMode`.
abbrev pub mode_of : (graphics : ℕ) (compat : Bool) (bytes bpp : ℕ) → ℕ
mode_of graphics compat bytes bpp =
    graphics * 128
    + (if compat then 64 else 0)
    + bpp % 4 * 16
    + stretch_of (pixels_of bytes bpp) % 16

abbrev pub is_artifacts : Case → Bool
is_artifacts artifacts = true
is_artifacts _ = false

abbrev agree : Bool → Bool → Bool
agree true b = b
agree false b = not b

abbrev fits_shape : Bool → (stretch per : ℕ) → Option Shape → Bool
fits_shape compat stretch per none = false
fits_shape compat stretch per (some s) =
    agree s.indexed compat && ((s.repeat == stretch + 1) && (per_byte s.width == per))

-- The stretched line and its two borders fill the window.
unfoldable fills : (bytes bpp : ℕ) → Bool
fills bytes bpp =
    let pixels = pixels_of bytes bpp in
    pixels * (stretch_of pixels + 1) + 2 * horz_center_of pixels == 640

-- A graphics mode has its shape, or is that of the artifacts.
unfoldable draws : (graphics : ℕ) (compat : Bool) (bytes bpp : ℕ) → Bool
draws graphics compat bytes bpp =
    let pixels = pixels_of bytes bpp in
    let mode = case_of (mode_of graphics compat bytes bpp) in
    (graphics == 0)
    || ((bpp == 3)
        || (is_artifacts mode
            || fits_shape compat (stretch_of pixels) (cc_pixels_per_byte bpp) (shape mode)))

unfoldable agrees : (graphics : ℕ) (compat : Bool) (bytes bpp : ℕ) → Bool
agrees graphics compat bytes bpp =
    ltb 640 (pixels_of bytes bpp) || (fills bytes bpp && draws graphics compat bytes bpp)

coco3_texts : scan_below (λ row. agrees 0 false (cc3_bytes_per_text_row row) 0) 8 ≡ true
unfolding scan_below case_of agrees fills draws
coco3_texts = refl

coco3_modes : scan_below (λ n. agrees 1 false (cc3_bytes_per_row (n / 4)) (n % 4)) 32 ≡ true
unfolding scan_below case_of agrees fills draws
coco3_modes = refl

coco2_modes : scan_below (λ kind. agrees 1 true (cc2_bytes_per_row kind) (cc2_bpp kind)) 8 ≡ true
unfolding scan_below case_of agrees fills draws
coco2_modes = refl

mode-agrees :
    (graphics : ℕ) (compat : Bool) (bytes bpp : ℕ)
    → IsMode graphics compat bytes bpp
    → agrees graphics compat bytes bpp ≡ true
unfolding agrees fills draws case_of
mode-agrees _ _ _ _ (coco3_text row below) =
    scan_below_lem (λ r. agrees 0 false (cc3_bytes_per_text_row r) 0) row 8 below coco3_texts
mode-agrees _ _ _ _ (coco3_graphics row bpp below small) =
    let high : (row * 4 + bpp) / 4 ≡ row = omega arith in
    let low : (row * 4 + bpp) % 4 ≡ bpp = omega arith in
    ap₂ (λ r b. agrees 1 false (cc3_bytes_per_row r) b) (sym high) (sym low)
    ∙ scan_below_lem (λ n. agrees 1 false (cc3_bytes_per_row (n / 4)) (n % 4)) (row * 4 + bpp) 32
        (omega arith) coco3_modes
mode-agrees _ _ _ _ coco2_text = refl
mode-agrees _ _ _ _ (coco2_graphics kind below) =
    scan_below_lem (λ k. agrees 1 true (cc2_bytes_per_row k) (cc2_bpp k)) kind 8 below coco2_modes

both :
    (graphics : ℕ) (compat : Bool) (bytes bpp : ℕ)
    → IsMode graphics compat bytes bpp
    → pixels_of bytes bpp ≤ 640
    → (fills bytes bpp ≡ true) × (draws graphics compat bytes bpp ≡ true)
unfolding agrees
both graphics compat bytes bpp mode narrow =
    let checked = mode-agrees graphics compat bytes bpp mode in
    (ground (arith, checked, narrow), ground (arith, checked, narrow))

pub mode-fills :
    (graphics : ℕ) (compat : Bool) (bytes bpp : ℕ)
    → IsMode graphics compat bytes bpp
    → pixels_of bytes bpp ≤ 640
    → pixels_of bytes bpp * (stretch_of (pixels_of bytes bpp) + 1)
        + 2 * horz_center_of (pixels_of bytes bpp)
      ≡ 640
unfolding fills
mode-fills graphics compat bytes bpp mode narrow =
    (==_iff _ _).0 (both graphics compat bytes bpp mode narrow).0

-- What a shape says of the variables.
unfoldable pub Suits : Bool → (stretch per : ℕ) → Shape → Type 0
Suits compat stretch per s =
    (s.indexed ≡ compat) × (s.repeat ≡ stretch + 1) × (per_byte s.width ≡ per)

agree_iff : (a b : Bool) → agree a b ≡ true → a ≡ b
agree_iff true b e = sym e
agree_iff false true e = absurd (ground (arith, e))
agree_iff false false e = refl

and_left : (a b : Bool) → (a && b) ≡ true → (a ≡ true) × (b ≡ true)
and_left true b e = (refl, e)
and_left false b e = absurd (ground (arith, e))

fits_shape_lem :
    (compat : Bool) (stretch per : ℕ) (o : Option Shape)
    → fits_shape compat stretch per o ≡ true
    → (s : Shape) × ((o ≡ some s) × Suits compat stretch per s)
unfolding Suits
fits_shape_lem compat stretch per none e = absurd (ground (arith, e))
fits_shape_lem compat stretch per (some s) e =
    let (flag, rest) = and_left (agree s.indexed compat) _ e in
    (s, (refl, (agree_iff s.indexed compat flag, ground (arith, rest), ground (arith, rest))))

or_right : (a b : Bool) → a ≡ false → (a || b) ≡ true → b ≡ true
or_right true b e f = absurd (ground (arith, e))
or_right false b e f = f

pub mode-draws :
    (compat : Bool) (bytes bpp : ℕ)
    → IsMode 1 compat bytes bpp
    → pixels_of bytes bpp ≤ 640
    → bpp ≢ 3
    → is_artifacts (case_of (mode_of 1 compat bytes bpp)) ≡ false
    → (s : Shape) × ((shape (case_of (mode_of 1 compat bytes bpp)) ≡ some s)
        × Suits compat (stretch_of (pixels_of bytes bpp)) (cc_pixels_per_byte bpp) s)
unfolding draws
mode-draws compat bytes bpp mode narrow colors plain =
    let checked = (both 1 compat bytes bpp mode narrow).1 in
    let unlike : (bpp == 3) ≡ false = ground (arith, colors) in
    fits_shape_lem compat (stretch_of (pixels_of bytes bpp)) (cc_pixels_per_byte bpp)
      (shape (case_of (mode_of 1 compat bytes bpp)))
      (or_right (is_artifacts (case_of (mode_of 1 compat bytes bpp))) _ plain
        (or_right (bpp == 3) _ unlike checked))
