-- ===== src/Pia/Tests.antt =====
-- The theorems of the PIAs at concrete registers.
use cutiecoco.Base.{
  ◌/◌, ◌%◌, ◌<◌, ◌≡◌, ◌≢◌, refl, subst, ◌↔◌, ◌⊎◌, true, false, ◌&&◌, ◌||◌, [], ◌∷◌, ◌++◌, arith,
  ◌==◌, if◌then◌else◌,
}
use cutiecoco.Base.Bits.{bit}
use cutiecoco.Calls.{irq, firq, assert_interrupt, deassert_interrupt}
use cutiecoco.Joystick
use cutiecoco.Keyboard
use cutiecoco.Keyboard.Keys.{CocoKey, count}
use cutiecoco.Pia.{Pia, Phase, falling, rising, any, irq_fs, pia0_read}
use cutiecoco.Pia.Capture.{Printer, stopped}
use cutiecoco.Pia.Frames.{capture_all, stream, printed, capture_stream}
use cutiecoco.Pia.Interrupts.{is_active_edge, delay, irq_fs_lem}
use cutiecoco.Pia.Reads.{pia0_read_row_low_iff}

-- Port B is output with column 2 strobed; both sync interrupts are enabled on the falling edge.
abbrev strobed : Pia
strobed = record {
  rega = λ n. if n == 2 then 0xfb else 0x05;
  regb = λ n. 0x05;
  rega_dd = λ n. if n == 2 then 0xff else 0;
  regb_dd = λ n. 0xff;
  a_sample = 0;
  s_sample = 0;
  c_sample = 0;
  cart_inserted = true;
  cart_auto_start = true;
  printer = stopped;
}

falling_is_not_any : falling ≢ any
falling_is_not_any e = subst IsFalling e tt
  where
    IsFalling : Phase → Type 0
    IsFalling falling = Unit
    IsFalling rising = ⊥
    IsFalling any = ⊥

irq_fs_lem_example :
    let edge = is_active_edge falling (bit (strobed.rega 3) 1) in
    let cart = strobed.cart_inserted && strobed.cart_auto_start in
    let (p', calls) = irq_fs falling strobed in
    (calls
      ≡ (if cart
          then (if bit (strobed.regb 3) 0 then assert_interrupt firq 0 else deassert_interrupt firq)
            ∷ []
          else [])
        ++ (if edge && bit (strobed.rega 3) 0
            then assert_interrupt irq (delay falling) ∷ []
            else []))
    × (bit (p'.rega 3) 7 ≡ (3 == 3) && ((7 == 7) && edge) || bit (strobed.rega 3) 7)
    × (bit (p'.regb 3) 7 ≡ (3 == 3) && ((7 == 7) && cart) || bit (strobed.regb 3) 7)
irq_fs_lem_example = irq_fs_lem falling strobed 3 7 falling_is_not_any

abbrev one_key : Keyboard.Keyboard
one_key = Keyboard.key_down 10 Keyboard.init

pia0_read_row_low_iff_example : (bit (pia0_read 0 one_key Joystick.init strobed).0 1 ≡ false) ↔ (
    ((key : CocoKey) × (key < count)
      × (key / 8 ≡ 1)
      × (bit (strobed.rega 2) (key % 8) ≡ false)
      × (Keyboard.is_pressed key one_key ≡ true))
    ⊎ ((1 < 4) × (bit (Joystick.get_button_bits Joystick.init) 1 ≡ false)))
pia0_read_row_low_iff_example =
    pia0_read_row_low_iff strobed one_key Joystick.init 1 (omega arith) (omega arith) refl refl

abbrev printing : Printer
printing = record stopped { is_open = true; add_lf = 1 }

capture_stream_example :
    capture_all (stream (0x41 ∷ 0x0d ∷ [])) printing
    ≡ record printing { written = printing.written ++ printed 1 (0x41 ∷ 0x0d ∷ []) }
unfolding stopped
capture_stream_example =
    capture_stream (0x41 ∷ 0x0d ∷ []) printing
      (record { opened = refl; waiting = refl; first = refl; empty = refl })
      (omega arith, (omega arith, tt))
