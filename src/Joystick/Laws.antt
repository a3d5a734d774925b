-- ===== src/Joystick/Laws.antt =====
-- What the PIA sees of the sticks.
use cutiecoco.Base.{
  ℕ, zero, suc, ◌+◌, ◌-◌, ◌*◌, ◌<◌, ◌≡◌, not, ◌&&◌, arith, ltb, ◌==◌, if◌then◌else◌,
}
use cutiecoco.Base.Bits.{bit}
use cutiecoco.Base.Int.{pos}
use cutiecoco.Base.Maps.{update_row}
use cutiecoco.Joystick.{
  Joystick, clamp, set_axis, get_axis, get_button_bits, start_ramp, get_comparison_result, axis_max,
  two, joystick_left, joystick_right,
}

-- Each of the four lines is low exactly if its button is pressed: the right stick's buttons on
-- the even lines, the left one's on the odd lines, the first buttons below the second ones.
pub get_button_bits_lem :
    (j : Joystick) (stick button : ℕ)
    → stick < two
    → button < two
    → bit (get_button_bits j) (button * 2 + (1 - stick)) ≡ not (j.buttons stick button)
unfolding get_button_bits
get_button_bits_lem j zero zero h k = ground arith
get_button_bits_lem j zero (suc zero) h k = ground arith
get_button_bits_lem j (suc zero) zero h k = ground arith
get_button_bits_lem j (suc zero) (suc zero) h k = ground arith
get_button_bits_lem j (suc (suc n)) button h k = absurd (omega arith)
get_button_bits_lem j stick (suc (suc n)) h k = absurd (omega arith)

-- Setting an axis to a value of 0 or more stores it, cut down to 63, changes no other axis, and
-- ignores a stick or an axis number that is too large.
pub get_axis-set_axis :
    (stick axis value stick' axis' : ℕ) (j : Joystick)
    → get_axis (pos stick') (pos axis') (set_axis (pos stick) (pos axis) (pos value) j) ≡ (
        if ltb stick two && (ltb axis two && ((stick' == stick) && (axis' == axis)))
        then (if ltb axis_max value then axis_max else value)
        else get_axis (pos stick') (pos axis') j)
unfolding get_axis set_axis
get_axis-set_axis stick axis value stick' axis' j =
    ground (arith, update_row j.axes stick axis (clamp (pos value)) stick' axis')

-- The axis that the multiplexer selects: the right stick's first.
abbrev pub selected_axis : ℕ → Joystick → ℕ
selected_axis mux j =
    j.axes (if ltb mux 2 then joystick_right else joystick_left)
      (if (mux == 0) then 0 else if mux == 2 then 0 else 1)

-- The comparator is a threshold on the axis that the multiplexer selects: after a level below 64 is
-- written to the upper six bits of the DAC, it answers high exactly if the level exceeds the axis.
pub get_comparison_result-start_ramp :
    (mux level : ℕ) (j : Joystick)
    → mux < 4
    → level < 64
    → get_comparison_result mux (start_ramp (level * 4) j) ≡ ltb (selected_axis mux j) level
unfolding get_comparison_result start_ramp
get_comparison_result-start_ramp zero level j h lt = ground arith
get_comparison_result-start_ramp (suc zero) level j h lt = ground arith
get_comparison_result-start_ramp (suc (suc zero)) level j h lt = ground arith
get_comparison_result-start_ramp (suc (suc (suc zero))) level j h lt = ground arith
get_comparison_result-start_ramp (suc (suc (suc (suc n)))) level j h lt = absurd (omega arith)
