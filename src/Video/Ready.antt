-- ===== src/Video/Ready.antt =====
-- The invariant of the registers of emulation/tcc1014graphics.cpp that a line can be drawn: no
-- division by zero, an even start of every line, and a mode of the tables.
use Prim.Native.Nat.{bit_and}
use cutiecoco.Base.{
  ℕ, zero, suc, ◌+◌, ◌*◌, ◌/◌, ◌%◌, ◌<◌, ◌≡◌, ◌≢◌, ◌⊎◌, inl, inr, refl, Bool, true, false, ltb,
  ◌==◌, if◌then◌else◌, arith, Bool-cases, ltb→lt, ==_iff,
}
use cutiecoco.Base.Bits.{bit, of_bool}
use cutiecoco.Base.BitLaws.{bit_and_halves}
use cutiecoco.Base.Tables.{scan_below, scan_below_lem}
use cutiecoco.Video.{Video}
use cutiecoco.Video.Setup.{
  lpf, cc2_bpp, cc2_lines_per_row, cc2_bytes_per_row, cc3_lines_per_row, cc3_bytes_per_row,
  cc3_bytes_per_text_row, cc_pixels_per_byte, stretch_of, horz_center_of, setup_coco3, setup_coco2,
  setup_coco2_text, setup_coco2_graphics, setup_common, setup_display,
}
use cutiecoco.Video.Modes.{
  IsMode, coco3_text, coco3_graphics, coco2_text, coco2_graphics, pixels_of, mode_of,
}

-- The variables of the mode are what the tables make of the bytes per row and the bits per pixel.
unfoldable pub HasMode : Video → Type 0
HasMode v =
    IsMode v.graphics_mode v.compat_mode v.bytes_per_row v.bpp
    × (v.pixels_per_line ≡ pixels_of v.bytes_per_row v.bpp)
    × (v.pixels_per_byte ≡ cc_pixels_per_byte v.bpp)
    × (v.stretch ≡ stretch_of (pixels_of v.bytes_per_row v.bpp))
    × (v.horz_center ≡ horz_center_of (pixels_of v.bytes_per_row v.bpp))
    × (v.master_mode ≡ mode_of v.graphics_mode v.compat_mode v.bytes_per_row v.bpp)

-- What the registers must satisfy for `SetupDisplay`.
unfoldable pub HasInputs : Video → Type 0
HasInputs v =
    (v.cc2_vdg_mode < 8)
    × (v.start_of_vidram % 2 ≡ 0)
    × (v.disto_offset % 2 ≡ 0)
    × (v.hoffset % 2 ≡ 0)
    × (v.vid_mask % 2 ≡ 1)

-- What it leaves.
unfoldable pub HasLines : Video → Type 0
HasLines v =
    (0 < v.lines_per_row)
    × (0 < v.lines_per_screen)
    × (v.new_start_of_vidram % 2 ≡ 0)
    × (v.vpitch % 2 ≡ 0)

unfoldable pub IsReady : Video → Type 0
IsReady v = HasInputs v × HasLines v × HasMode v

even_mask : (a m : ℕ) → a % 2 ≡ 0 → bit_and a m % 2 ≡ 0
even_mask a m even = omega (arith, bit_and_halves a m)

pub mode-even :
    (graphics : ℕ) (compat : Bool) (bytes bpp : ℕ)
    → IsMode graphics compat bytes bpp
    → bytes % 2 ≡ 0
mode-even _ _ _ _ (coco3_text row below) = (==_iff _ _).0 (
    scan_below_lem (λ i. cc3_bytes_per_text_row i % 2 == 0) row 8 below (unfold scan_below in refl))
mode-even _ _ _ _ (coco3_graphics row bpp below small) =
    (==_iff _ _).0
      (scan_below_lem (λ i. cc3_bytes_per_row i % 2 == 0) row 8 below (unfold scan_below in refl))
mode-even _ _ _ _ coco2_text = refl
mode-even _ _ _ _ (coco2_graphics kind below) =
    (==_iff _ _).0
      (scan_below_lem (λ i. cc2_bytes_per_row i % 2 == 0) kind 8 below (unfold scan_below in refl))

lpf-pos : (i : ℕ) → i < 4 → 0 < lpf i
lpf-pos i below =
    ltb→lt _ _ (scan_below_lem (λ k. ltb 0 (lpf k)) i 4 below (unfold scan_below in refl))

pitch-even : (wide : Bool) (bytes : ℕ) → bytes % 2 ≡ 0 → (if wide then 256 else bytes) % 2 ≡ 0
pitch-even true bytes even = refl
pitch-even false bytes even = even

compat-weight :
    (compat : Bool) (a b c : ℕ)
    → a + of_bool compat * 64 + b + c ≡ a + (if compat then 64 else 0) + b + c
compat-weight true a b c = refl
compat-weight false a b c = refl

-- The part after the switch.
common-IsReady :
    (v : Video)
    → HasInputs v
    → 0 < v.lines_per_row
    → v.vres_index < 4
    → v.new_start_of_vidram % 2 ≡ 0
    → IsMode v.graphics_mode v.compat_mode v.bytes_per_row v.bpp
    → IsReady (setup_common v)
unfolding setup_common HasInputs HasLines HasMode IsReady
common-IsReady v inputs rows vres even mode =
    let (_, _, disto, _, _) = inputs in
    (
      inputs,
      (
        rows,
        lpf-pos v.vres_index vres,
        omega (arith, even_mask v.new_start_of_vidram v.vid_mask even, disto),
        pitch-even (bit v.horz_offset_reg 7) v.bytes_per_row (mode-even _ _ _ _ mode),
      ),
      (mode, refl, refl, refl, refl, compat-weight v.compat_mode _ _ _),
    )

cc3-rows : (last i : ℕ) → (0 < last) ⊎ (i ≢ 7) → i < 8 → 0 < cc3_lines_per_row last i
cc3-rows last zero usable below = omega arith
cc3-rows last (suc zero) usable below = omega arith
cc3-rows last (suc (suc zero)) usable below = omega arith
cc3-rows last (suc (suc (suc zero))) usable below = omega arith
cc3-rows last (suc (suc (suc (suc zero)))) usable below = omega arith
cc3-rows last (suc (suc (suc (suc (suc zero))))) usable below = omega arith
cc3-rows last (suc (suc (suc (suc (suc (suc zero)))))) usable below = omega arith
cc3-rows last (suc (suc (suc (suc (suc (suc (suc zero))))))) (inl some_lines) below = some_lines
cc3-rows last (suc (suc (suc (suc (suc (suc (suc zero))))))) (inr other) below = absurd (other refl)
cc3-rows last (suc (suc (suc (suc (suc (suc (suc (suc i)))))))) usable below = absurd (omega arith)

cc2_rows-pos : (i : ℕ) → i < 8 → 0 < cc2_lines_per_row i
cc2_rows-pos i below =
    ltb→lt _ _
      (scan_below_lem (λ k. ltb 0 (cc2_lines_per_row k)) i 8 below (unfold scan_below in refl))

coco3-IsMode :
    (graphics row colors : ℕ) (compat : Bool)
    → graphics < 2
    → row < 8
    → colors < 4
    → compat ≡ false
    → IsMode graphics compat
        (if graphics == 0 then cc3_bytes_per_text_row row else cc3_bytes_per_row row)
        (if graphics == 0 then 0 else colors)
coco3-IsMode graphics row colors true _ _ _ e = absurd (ground (arith, e))
coco3-IsMode zero row colors false g r c e = coco3_text row r
coco3-IsMode (suc zero) row colors false g r c e = coco3_graphics row colors r c
coco3-IsMode (suc (suc _)) row colors false g r c e = absurd (omega arith)

coco3-IsReady :
    (v : Video)
    → HasInputs v
    → (0 < v.lines_per_screen) ⊎ (v.cc3_vmode % 8 ≢ 7)
    → v.compat_mode ≡ false
    → IsReady (setup_common (setup_coco3 v))
unfolding setup_coco3 HasInputs
coco3-IsReady v inputs usable compat =
    common-IsReady (setup_coco3 v) inputs
      (cc3-rows v.lines_per_screen (v.cc3_vmode % 8) usable (omega arith)) (omega arith)
      (omega arith)
      (coco3-IsMode (v.cc3_vmode / 128 % 2) (v.cc3_vres / 4 % 8) (v.cc3_vres % 4) v.compat_mode
        (omega arith) (omega arith) (omega arith) compat)

coco2_text-IsMode :
    (graphics : ℕ) (compat : Bool)
    → (graphics == 0) ≡ true
    → compat ≡ true
    → IsMode graphics compat 32 0
coco2_text-IsMode graphics false e f = absurd (ground (arith, f))
coco2_text-IsMode zero true e f = coco2_text
coco2_text-IsMode (suc _) true e f = absurd (ground (arith, e))

coco2_graphics-IsMode :
    (graphics kind : ℕ) (compat : Bool)
    → graphics < 2
    → (graphics == 0) ≡ false
    → kind < 8
    → compat ≡ true
    → IsMode graphics compat (cc2_bytes_per_row kind) (cc2_bpp kind)
coco2_graphics-IsMode graphics kind false g e k f = absurd (ground (arith, f))
coco2_graphics-IsMode zero kind true g e k f = absurd (ground (arith, e))
coco2_graphics-IsMode (suc zero) kind true g e k f = coco2_graphics kind k
coco2_graphics-IsMode (suc (suc _)) kind true g e k f = absurd (omega arith)

coco2-IsReady :
    (v : Video) → HasInputs v → v.compat_mode ≡ true → IsReady (setup_common (setup_coco2 v))
unfolding setup_coco2 setup_coco2_text setup_coco2_graphics HasInputs
coco2-IsReady v inputs compat = elim (Bool-cases (v.cc2_vdg_pia_mode / 16 % 2 == 0)) [
  | inl text ↦ rw text (
      common-IsReady _ inputs (cc2_rows-pos v.cc2_vdg_mode inputs.0) (omega arith) (omega arith)
        (coco2_text-IsMode (v.cc2_vdg_pia_mode / 16 % 2) v.compat_mode text compat))
  | inr graphics ↦ rw graphics (
      common-IsReady _ inputs (cc2_rows-pos v.cc2_vdg_mode inputs.0) (omega arith) (omega arith) (
        coco2_graphics-IsMode (v.cc2_vdg_pia_mode / 16 % 2) (v.cc2_vdg_pia_mode % 16 / 2)
          v.compat_mode (omega arith) graphics (omega arith) compat))
]

chosen :
    (test : Bool) (x y : Video)
    → (test ≡ true → IsReady (setup_common x))
    → (test ≡ false → IsReady (setup_common y))
    → IsReady (setup_common (if test then x else y))
chosen true x y left right = left refl
chosen false x y left right = right refl

-- `SetupDisplay` makes the display ready. In Color Computer 3 mode, a row of as many lines as the
-- screen needs that these were counted before.
pub setup_display-IsReady :
    (v : Video)
    → HasInputs v
    → (0 < v.lines_per_screen) ⊎ (v.cc3_vmode % 8 ≢ 7)
    → IsReady (setup_display v)
unfolding setup_display
setup_display-IsReady v inputs usable =
    chosen v.compat_mode (setup_coco2 v) (setup_coco3 v) (λ compat. coco2-IsReady v inputs compat)
      (λ plain. coco3-IsReady v inputs usable plain)
