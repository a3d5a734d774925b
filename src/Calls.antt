-- ===== src/Calls.antt =====
-- What the parts ask of other units: the video half of the GIME
-- (emulation/tcc1014graphics.cpp), the scan-line and timer unit (emulation/coco3.cpp), the CPU's
-- interrupt inputs and the cassette. An operation returns the calls that it makes, in order.
use cutiecoco.Base.{ℕ, Bool}

-- The interrupt lines, by the numbers of MachineDefs.h.
pub data Line : Type 0 where
  irq firq nmi : Line

pub data Call : Type 0 where
  -- To the processor: `CPUAssertInterupt(line, waiter)` and `CPUDeAssertInterupt(line)`.
  assert_interrupt : Line → ℕ → Call
  deassert_interrupt : Line → Call
  -- To the video unit.
  set_vid_mask : ℕ → Call
  set_video_bank : ℕ → Call
  set_compat_mode : Bool → Call
  set_gime_vmode : ℕ → Call
  set_gime_vres : ℕ → Call
  set_gime_border_color : ℕ → Call
  set_gime_pallet : ℕ → ℕ → Call
  set_gime_horz_offset : ℕ → Call
  set_vertical_offset_register : ℕ → Call
  set_gime_vdg_offset : ℕ → Call
  set_gime_vdg_mode : ℕ → Call
  set_gime_vdg_mode2 : ℕ → Call
  -- To the scan-line and timer unit.
  set_vert_interrupt_state : Bool → Call
  set_horz_interrupt_state : Bool → Call
  set_timer_interrupt_state : Bool → Call
  set_timer_clock_rate : ℕ → Call
  set_interrupt_timer : ℕ → Call
  set_turbo_mode : ℕ → Call
  set_cpu_multiplyer_flag : ℕ → Call
  misc_reset : Call
  -- To the cassette.
  motor : ℕ → Call
