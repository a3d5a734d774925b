-- ===== src/Joystick/Tests.antt =====
-- The theorems of the joysticks at concrete positions.
use cutiecoco.Base.{◌*◌, ◌≡◌, refl, true, arith, ltb}
use cutiecoco.Base.Int.{pos}
use cutiecoco.Base.Maps.{update}
use cutiecoco.Joystick.{
  Joystick, init, set_button, get_button_bits, start_ramp, get_comparison_result, joystick_left,
}
use cutiecoco.Joystick.Laws.{selected_axis, get_comparison_result-start_ramp}

abbrev fire : Joystick
fire = set_button (pos joystick_left) (pos 0) true init

left_line_low : get_button_bits fire ≡ 0x0d
unfolding set_button get_button_bits init update
left_line_low = refl

get_comparison_result-start_ramp_example :
    get_comparison_result 2 (start_ramp (40 * 4) init) ≡ ltb (selected_axis 2 init) 40
get_comparison_result-start_ramp_example =
    get_comparison_result-start_ramp 2 40 init (omega arith) (omega arith)
