-- ===== src/Video/Invariant.antt =====
-- Every operation of emulation/tcc1014graphics.cpp keeps the display ready, from a reset on.
use cutiecoco.Base.{
  ℕ, ◌*◌, ◌%◌, ◌<◌, ◌≡◌, inl, inr, refl, Bool, true, false, ◌==◌, if◌then◌else◌, arith, ltb→lt,
  ==_iff, Bool-cases,
}
use cutiecoco.Base.Bits.{u8, of_bool}
use cutiecoco.Calls.{
  Call, assert_interrupt, deassert_interrupt, set_vert_interrupt_state, set_horz_interrupt_state,
  set_timer_interrupt_state, set_timer_clock_rate, set_interrupt_timer, set_turbo_mode,
  set_cpu_multiplyer_flag, misc_reset, motor, set_vid_mask, set_video_bank, set_compat_mode,
  set_gime_vmode, set_gime_vres, set_gime_border_color, set_gime_pallet, set_gime_horz_offset,
  set_vertical_offset_register, set_gime_vdg_offset, set_gime_vdg_mode, set_gime_vdg_mode2,
}
use cutiecoco.Video.{Video, Host}
use cutiecoco.Video.Setup.{setup_display}
use cutiecoco.Video.Registers
use cutiecoco.Video.Registers.{
  redisplay, set_border_change, invalidate_border, tog_blink_state, flip_artifacts, take_monitor,
  set_monitor_type, set_palette_type, gime_reset, query, set_scan_lines,
}
use cutiecoco.Video.Palettes.{make_cmp_palette, make_rgb_palette}
use cutiecoco.Video.Lines.{begin_line}
use cutiecoco.Video.Obey.{obey, is_allowed}
use cutiecoco.Video.Ready.{HasInputs, HasLines, HasMode, IsReady, setup_display-IsReady}

chosen : (test : Bool) (x y : Video) → IsReady x → IsReady y → IsReady (if test then x else y)
chosen true x y p q = p
chosen false x y p q = q

-- A register changes and the display is set up again.
set_up :
    (test : Bool) (v w : Video)
    → IsReady v
    → HasInputs w
    → 0 < w.lines_per_screen
    → IsReady (if test then v else setup_display w)
set_up test v w ready inputs lines =
    chosen test v (setup_display w) ready (setup_display-IsReady w inputs (inl lines))

redisplay-IsReady : (w : Video) → HasInputs w → 0 < w.lines_per_screen → IsReady (redisplay w)
unfolding redisplay IsReady HasInputs HasLines HasMode
redisplay-IsReady w inputs lines = setup_display-IsReady w inputs (inl lines)

shown_again :
    (test : Bool) (v w : Video)
    → IsReady v
    → HasInputs w
    → 0 < w.lines_per_screen
    → IsReady (if test then v else redisplay w)
shown_again test v w ready inputs lines =
    chosen test v (redisplay w) ready (redisplay-IsReady w inputs lines)

pub obey-IsReady :
    (call : Call) (v : Video) → IsReady v → is_allowed call ≡ true → IsReady (obey call v)
unfolding obey IsReady HasInputs HasLines HasMode Registers.set_vid_mask Registers.set_video_bank
    Registers.set_compat_mode Registers.set_gime_vmode Registers.set_gime_vres
    Registers.set_gime_border_color Registers.set_gime_pallet Registers.set_gime_horz_offset
    Registers.set_vertical_offset_register Registers.set_gime_vdg_offset Registers.set_gime_vdg_mode
    Registers.set_gime_vdg_mode2
obey-IsReady (set_vid_mask mask) v ((vdg, start, disto, hoffset, _), lines, mode) ok =
    ((vdg, start, disto, hoffset, (==_iff _ _).0 ok), lines, mode)
obey-IsReady (set_video_bank bank) v ((vdg, start, disto, hoffset, mask), lines, mode) ok =
    setup_display-IsReady _ (vdg, start, omega arith, hoffset, mask) (inl (lines.1))
obey-IsReady (set_compat_mode on) v ready ok =
    shown_again (of_bool v.compat_mode == of_bool on) v (record v { compat_mode = on }) ready
      ready.0 ready.1.1
obey-IsReady (set_gime_vmode mode) v ready ok =
    shown_again (v.cc3_vmode == mode) v (record v { cc3_vmode = mode }) ready ready.0 ready.1.1
obey-IsReady (set_gime_vres res) v ready ok =
    shown_again (v.cc3_vres == res) v (record v { cc3_vres = res }) ready ready.0 ready.1.1
obey-IsReady (set_gime_border_color color) v ready ok =
    shown_again (v.cc3_border_color == color % 64) v (record v { cc3_border_color = color % 64 })
      ready ready.0 ready.1.1
obey-IsReady (set_gime_pallet index color) v ready ok = ready
obey-IsReady (set_gime_horz_offset byte) v ready ok =
    let ((vdg, start, disto, hoffset, mask), lines, mode) = ready in
    set_up (v.horz_offset_reg == byte) v
      (record v { hoffset = u8 (2 * byte); horz_offset_reg = byte }) ready
      (vdg, start, disto, omega arith, mask) (lines.1)
obey-IsReady (set_vertical_offset_register register) v ready ok =
    set_up (v.vertical_offset_register == register) v
      (record v { vertical_offset_register = register }) ready ready.0 ready.1.1
obey-IsReady (set_gime_vdg_offset offset) v ready ok =
    set_up (v.cc2_offset == offset) v (record v { cc2_offset = offset }) ready ready.0 ready.1.1
obey-IsReady (set_gime_vdg_mode mode) v ready ok =
    let ((vdg, start, disto, hoffset, mask), lines, _) = ready in
    shown_again (v.cc2_vdg_mode == mode) v (record v { cc2_vdg_mode = mode }) ready
      (ltb→lt mode 8 ok, start, disto, hoffset, mask) (lines.1)
obey-IsReady (set_gime_vdg_mode2 mode) v ready ok =
    shown_again (v.cc2_vdg_pia_mode == mode) v (record v { cc2_vdg_pia_mode = mode }) ready ready.0
      ready.1.1
obey-IsReady (assert_interrupt _ _) v ready ok = ready
obey-IsReady (deassert_interrupt _) v ready ok = ready
obey-IsReady (set_vert_interrupt_state _) v ready ok = ready
obey-IsReady (set_horz_interrupt_state _) v ready ok = ready
obey-IsReady (set_timer_interrupt_state _) v ready ok = ready
obey-IsReady (set_timer_clock_rate _) v ready ok = ready
obey-IsReady (set_interrupt_timer _) v ready ok = ready
obey-IsReady (set_turbo_mode _) v ready ok = ready
obey-IsReady (set_cpu_multiplyer_flag _) v ready ok = ready
obey-IsReady misc_reset v ready ok = ready
obey-IsReady (motor _) v ready ok = ready

take_monitor-IsReady : (monitor : ℕ) (v : Video) → IsReady v → IsReady (take_monitor monitor v)
unfolding take_monitor IsReady HasInputs HasLines HasMode
take_monitor-IsReady monitor v ready = ready

set_monitor_type-IsReady :
    (monitor : ℕ) (v : Video) → IsReady v → IsReady (set_monitor_type monitor v).1
unfolding set_monitor_type obey
set_monitor_type-IsReady monitor v ready =
    let black = obey-IsReady (set_gime_border_color 0) v ready refl in
    obey-IsReady (set_gime_border_color v.cc3_border_color) _
      (chosen (monitor == query) _ _ black (take_monitor-IsReady monitor _ black)) refl

set_palette_type-IsReady : (v : Video) → IsReady v → IsReady (set_palette_type v)
unfolding set_palette_type obey make_cmp_palette IsReady HasInputs HasLines HasMode
set_palette_type-IsReady v ready =
    let black = obey-IsReady (set_gime_border_color 0) v ready refl in
    obey-IsReady (set_gime_border_color v.cc3_border_color)
      (make_cmp_palette (obey (set_gime_border_color 0) v)) black refl

pub begin_line-IsReady : (v : Video) (h : Host) → IsReady v → IsReady (begin_line v h)
unfolding begin_line IsReady HasInputs HasLines HasMode
begin_line-IsReady v h ((vdg, start, disto, hoffset, mask), lines, mode) =
    let (_, _, fresh, _) = lines in
    ((vdg, ground (arith, start, fresh), disto, hoffset, mask), lines, mode)

set_scan_lines-IsReady :
    (lines : ℕ) (v : Video) (h : Host) → IsReady v → IsReady (set_scan_lines lines v h).0
unfolding set_scan_lines IsReady HasInputs HasLines HasMode
set_scan_lines-IsReady lines v h ready = elim (Bool-cases (lines == query)) [
  | inl e ↦ rw e ready
  | inr e ↦ rw e ready
]

-- The operations of the video unit, in any order: calls of the other units, those of the user
-- interface and of the frame, and the head of a drawn line.
pub data Step : Video → Video → Type 0 where
  called : {v : Video} (call : Call) → is_allowed call ≡ true → Step v (obey call v)
  monitor_set : {v : Video} (monitor : ℕ) → Step v (set_monitor_type monitor v).1
  palette_set : {v : Video} → Step v (set_palette_type v)
  artifacts_flipped : {v : Video} → Step v (flip_artifacts v)
  blink_toggled : {v : Video} → Step v (tog_blink_state v)
  border_counted : {v : Video} → Step v (set_border_change v)
  border_invalidated : {v : Video} → Step v (invalidate_border v)
  line_begun : {v : Video} (h : Host) → Step v (begin_line v h)
  scan_lines_set : {v : Video} (lines : ℕ) (h : Host) → Step v (set_scan_lines lines v h).0
  was_reset : {v : Video} → Step v (gime_reset v).0

-- A state that a reset and then any operations lead to.
pub data Reachable : Video → Type 0 where
  reset_first : (v : Video) → v.cc2_vdg_mode < 8 → v.vid_mask % 2 ≡ 1 → Reachable (gime_reset v).0
  then_step : {v w : Video} → Reachable v → Step v w → Reachable w

pub gime_reset-IsReady :
    (v : Video) → v.cc2_vdg_mode < 8 → v.vid_mask % 2 ≡ 1 → IsReady (gime_reset v).0
unfolding gime_reset make_cmp_palette make_rgb_palette HasInputs
gime_reset-IsReady v vdg mask =
    setup_display-IsReady _ (vdg, refl, refl, refl, mask) (inr (omega arith))

pub step-IsReady : {v w : Video} → Step v w → IsReady v → IsReady w
unfolding IsReady HasInputs HasLines HasMode flip_artifacts tog_blink_state set_border_change
    invalidate_border
step-IsReady {v} (called call ok) ready = obey-IsReady call v ready ok
step-IsReady {v} (monitor_set monitor) ready = set_monitor_type-IsReady monitor v ready
step-IsReady {v} palette_set ready = set_palette_type-IsReady v ready
step-IsReady artifacts_flipped ready = ready
step-IsReady blink_toggled ready = ready
step-IsReady border_counted ready = ready
step-IsReady border_invalidated ready = ready
step-IsReady {v} (line_begun h) ready = begin_line-IsReady v h ready
step-IsReady {v} (scan_lines_set lines h) ready = set_scan_lines-IsReady lines v h ready
step-IsReady {v} was_reset ready =
    let (vdg, _, _, _, mask) = ready.0 in gime_reset-IsReady v vdg mask

-- In every state that a reset and any operations of the video unit lead to, the lines per row are
-- not 0, every line starts at an even address, and the variables of the mode are those of one of
-- the combinations of bytes per row and bits per pixel of the tables.
pub Reachable-IsReady : {v : Video} → Reachable v → IsReady v
Reachable-IsReady (reset_first v vdg mask) = gime_reset-IsReady v vdg mask
Reachable-IsReady (then_step before step) = step-IsReady step (Reachable-IsReady before)
