-- ===== src/Video/Mirror.antt =====
-- The register file of emulation/tcc1014registers.cpp and the registers of
-- emulation/tcc1014graphics.cpp: the video unit keeps its own copies of four registers, which
-- `GimeWrite` sets by its calls.
use cutiecoco.Base.{
  ℕ, ◌*◌, ◌/◌, ◌%◌, ◌≡◌, refl, Bool, true, false, ◌==◌, if◌then◌else◌, arith, ==_iff,
}
use cutiecoco.Base.Bits.{u8, of_bool}
use cutiecoco.Calls.{
  Call, set_gime_vdg_offset, set_gime_vdg_mode, set_gime_vdg_mode2, assert_interrupt,
  deassert_interrupt, set_vert_interrupt_state, set_horz_interrupt_state, set_timer_interrupt_state,
  set_timer_clock_rate, set_interrupt_timer, set_turbo_mode, set_cpu_multiplyer_flag, misc_reset,
  motor, set_video_bank, set_vid_mask, set_compat_mode, set_gime_vmode, set_gime_vres,
  set_gime_border_color, set_gime_pallet, set_gime_horz_offset, set_vertical_offset_register,
}
use cutiecoco.Video.{Video}
use cutiecoco.Video.Setup.{
  setup_display, setup_common, setup_coco3, setup_coco2, setup_coco2_text, setup_coco2_graphics,
}
use cutiecoco.Video.Registers
use cutiecoco.Video.Registers.{redisplay}
use cutiecoco.Video.Obey.{obey}

-- The values of the four registers.
unfoldable pub Copies : (vmode vres vertical horizontal : ℕ) → Video → Type 0
Copies vmode vres vertical horizontal v =
    (v.cc3_vmode ≡ vmode)
    × (v.cc3_vres ≡ vres)
    × (v.vertical_offset_register ≡ vertical)
    × (v.horz_offset_reg ≡ horizontal)

-- The calls that set one of the four.
abbrev pub sets_copy : Call → Bool
sets_copy (set_gime_vmode _) = true
sets_copy (set_gime_vres _) = true
sets_copy (set_vertical_offset_register _) = true
sets_copy (set_gime_horz_offset _) = true
sets_copy _ = false

chosen :
    (P : Video → Type 0) (test : Bool) (x y : Video)
    → (test ≡ true → P x)
    → (test ≡ false → P y)
    → P (if test then x else y)
chosen P true x y left right = left refl
chosen P false x y left right = right refl

module _ (a b c d : ℕ) where
  text_or_graphics :
      (test : Bool) (v x y : Video)
      → Copies a b c d x
      → Copies a b c d y
      → Copies a b c d (setup_common (if test then x else y))
  unfolding Copies setup_common
  text_or_graphics true v x y p q = p
  text_or_graphics false v x y p q = q

  coco2-Copies : (v : Video) → Copies a b c d v → Copies a b c d (setup_coco2 v)
  unfolding Copies setup_coco2 setup_coco2_text setup_coco2_graphics
  coco2-Copies v p =
      chosen (Copies a b c d) (v.cc2_vdg_pia_mode / 16 % 2 == 0) _ _ (λ _. p) (λ _. p)

  coco3-Copies : (v : Video) → Copies a b c d v → Copies a b c d (setup_coco3 v)
  unfolding Copies setup_coco3
  coco3-Copies v p = p

  setup_display-Copies : (v : Video) → Copies a b c d v → Copies a b c d (setup_display v)
  unfolding setup_display
  setup_display-Copies v p =
      text_or_graphics v.compat_mode v (setup_coco2 v) (setup_coco3 v) (coco2-Copies v p)
        (coco3-Copies v p)

  redisplay-Copies : (v : Video) → Copies a b c d v → Copies a b c d (redisplay v)
  unfolding redisplay Copies
  redisplay-Copies v p = setup_display-Copies v p

  -- A register that is set to the value that it has, or a display that is set up again.
  kept :
      (test : Bool) (v w : Video)
      → (test ≡ true → Copies a b c d v)
      → Copies a b c d w
      → Copies a b c d (if test then v else setup_display w)
  kept test v w p q =
      chosen (Copies a b c d) test v (setup_display w) p (λ _. setup_display-Copies w q)

  kept_again :
      (test : Bool) (v w : Video)
      → (test ≡ true → Copies a b c d v)
      → Copies a b c d w
      → Copies a b c d (if test then v else redisplay w)
  kept_again test v w p q =
      chosen (Copies a b c d) test v (redisplay w) p (λ _. redisplay-Copies w q)

  -- The calls that set none of the four.
  pub other-Copies :
      (call : Call) (v : Video)
      → sets_copy call ≡ false
      → Copies a b c d v
      → Copies a b c d (obey call v)
  unfolding Copies obey Registers.set_vid_mask Registers.set_video_bank Registers.set_compat_mode
      Registers.set_gime_border_color Registers.set_gime_pallet Registers.set_gime_vdg_offset
      Registers.set_gime_vdg_mode Registers.set_gime_vdg_mode2
  other-Copies (set_vid_mask mask) v e p = p
  other-Copies (set_video_bank bank) v e p =
      setup_display-Copies (record v { disto_offset = bank * (512 * 1024) }) p
  other-Copies (set_compat_mode on) v e p =
      kept_again (of_bool v.compat_mode == of_bool on) v (record v { compat_mode = on }) (λ _. p) p
  other-Copies (set_gime_border_color color) v e p =
      kept_again (v.cc3_border_color == color % 64) v (record v { cc3_border_color = color % 64 })
        (λ _. p) p
  other-Copies (set_gime_pallet index color) v e p = p
  other-Copies (set_gime_vdg_offset offset) v e p =
      kept (v.cc2_offset == offset) v (record v { cc2_offset = offset }) (λ _. p) p
  other-Copies (set_gime_vdg_mode mode) v e p =
      kept_again (v.cc2_vdg_mode == mode) v (record v { cc2_vdg_mode = mode }) (λ _. p) p
  other-Copies (set_gime_vdg_mode2 mode) v e p =
      kept_again (v.cc2_vdg_pia_mode == mode) v (record v { cc2_vdg_pia_mode = mode }) (λ _. p) p
  other-Copies (set_gime_vmode mode) v e p = absurd (ground (arith, e))
  other-Copies (set_gime_vres res) v e p = absurd (ground (arith, e))
  other-Copies (set_vertical_offset_register register) v e p = absurd (ground (arith, e))
  other-Copies (set_gime_horz_offset offset) v e p = absurd (ground (arith, e))
  other-Copies (assert_interrupt _ _) v e p = p
  other-Copies (deassert_interrupt _) v e p = p
  other-Copies (set_vert_interrupt_state _) v e p = p
  other-Copies (set_horz_interrupt_state _) v e p = p
  other-Copies (set_timer_interrupt_state _) v e p = p
  other-Copies (set_timer_clock_rate _) v e p = p
  other-Copies (set_interrupt_timer _) v e p = p
  other-Copies (set_turbo_mode _) v e p = p
  other-Copies (set_cpu_multiplyer_flag _) v e p = p
  other-Copies misc_reset v e p = p
  other-Copies (motor _) v e p = p

pub vmode-Copies :
    (a b c d m : ℕ) (v : Video) → Copies a b c d v → Copies m b c d (obey (set_gime_vmode m) v)
unfolding Copies obey Registers.set_gime_vmode
vmode-Copies a b c d m v (p, q, r, s) =
    kept_again m b c d (v.cc3_vmode == m) v (record v { cc3_vmode = m })
      (λ same. ((==_iff v.cc3_vmode m).0 same, q, r, s)) (refl, q, r, s)

pub vres-Copies :
    (a b c d m : ℕ) (v : Video) → Copies a b c d v → Copies a m c d (obey (set_gime_vres m) v)
unfolding Copies obey Registers.set_gime_vres
vres-Copies a b c d m v (p, q, r, s) =
    kept_again a m c d (v.cc3_vres == m) v (record v { cc3_vres = m })
      (λ same. (p, (==_iff v.cc3_vres m).0 same, r, s)) (p, refl, r, s)

pub vertical-Copies :
    (a b c d m : ℕ) (v : Video)
    → Copies a b c d v
    → Copies a b m d (obey (set_vertical_offset_register m) v)
unfolding Copies obey Registers.set_vertical_offset_register
vertical-Copies a b c d m v (p, q, r, s) =
    kept a b m d (v.vertical_offset_register == m) v (record v { vertical_offset_register = m })
      (λ same. (p, q, (==_iff v.vertical_offset_register m).0 same, s)) (p, q, refl, s)

pub horizontal-Copies :
    (a b c d m : ℕ) (v : Video)
    → Copies a b c d v
    → Copies a b c m (obey (set_gime_horz_offset m) v)
unfolding Copies obey Registers.set_gime_horz_offset
horizontal-Copies a b c d m v (p, q, r, s) =
    kept a b c m (v.horz_offset_reg == m) v (record v { hoffset = u8 (2 * m); horz_offset_reg = m })
      (λ same. (p, q, r, (==_iff v.horz_offset_reg m).0 same)) (p, q, r, refl)
