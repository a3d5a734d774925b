-- ===== src/Joystick.antt =====
-- emulation/src/joystick.cpp: two sticks of two axes and two buttons, the button lines that the
-- first PIA reads, and the comparator between the DAC and a potentiometer.
pub mod Laws
mod Tests
use cutiecoco.Base.{ℕ, ◌/◌, Bool, true, false, ltb, leb, ◌==◌, if◌then◌else◌, min}
use cutiecoco.Base.Bits.{clear_bit, u8}
use cutiecoco.Base.Int.{ℤ, pos, negsuc}
use cutiecoco.Base.Maps.{update}

abbrev pub joystick_left : ℕ
joystick_left = 0

abbrev pub joystick_right : ℕ
joystick_right = 1

-- `JOYSTICK_COUNT`, `AXIS_COUNT` and `BUTTON_COUNT`.
abbrev pub two : ℕ
two = 2

abbrev pub axis_center : ℕ
axis_center = 32

abbrev pub axis_max : ℕ
axis_max = 63

pub record Joystick : Type 0 where
  pub axes : ℕ → ℕ → ℕ
  pub buttons : ℕ → ℕ → Bool
  pub dac_value : ℕ

unfoldable pub init : Joystick
init = record { axes = λ _ _. axis_center; buttons = λ _ _. false; dac_value = 0 }

-- `std::clamp(value, AXIS_MIN, AXIS_MAX)`.
abbrev pub clamp : ℤ → ℕ
clamp (pos n) = min n axis_max
clamp (negsuc n) = 0

-- An index argument of type `int`: `none` of the tables has it if it is negative.
abbrev pub in_range : ℤ → Bool
in_range (pos n) = ltb n two
in_range (negsuc n) = false

abbrev pub index : ℤ → ℕ
index (pos n) = n
index (negsuc n) = 0

pub set_axis : ℤ → ℤ → ℤ → Joystick → Joystick
set_axis joystick axis value j =
    if in_range joystick
    then (if in_range axis
        then record j {
          axes =
              update j.axes (index joystick)
                (update (j.axes (index joystick)) (index axis) (clamp value));
        }
        else j)
    else j

pub get_axis : ℤ → ℤ → Joystick → ℕ
get_axis joystick axis j =
    if in_range joystick
    then (if in_range axis then j.axes (index joystick) (index axis) else axis_center)
    else axis_center

pub set_button : ℤ → ℤ → Bool → Joystick → Joystick
set_button joystick button pressed j =
    if in_range joystick
    then (if in_range button
        then record j {
          buttons =
              update j.buttons (index joystick)
                (update (j.buttons (index joystick)) (index button) pressed);
        }
        else j)
    else j

pub get_button : ℤ → ℤ → Joystick → Bool
get_button joystick button j =
    if in_range joystick
    then (if in_range button then j.buttons (index joystick) (index button) else false)
    else false

-- `bits &= ~mask` if the button is pressed.
abbrev pub drop_if : Bool → ℕ → ℕ → ℕ
drop_if pressed k bits = if pressed then clear_bit bits k else bits

unfoldable pub get_button_bits : Joystick → ℕ
get_button_bits j = drop_if (j.buttons joystick_left 1) 3 (
    drop_if (j.buttons joystick_right 1) 2
      (drop_if (j.buttons joystick_left 0) 1 (drop_if (j.buttons joystick_right 0) 0 0x0f)))

-- `startRamp`, whose argument is a byte.
unfoldable pub start_ramp : ℕ → Joystick → Joystick
start_ramp dac_value j = record j { dac_value = u8 dac_value / 4 }

-- `getComparisonResult`, with the multiplexer's state as a number.
unfoldable pub get_comparison_result : ℕ → Joystick → Bool
get_comparison_result mux_state j =
    if mux_state == 0
    then ltb (j.axes joystick_right 0) j.dac_value
    else if mux_state == 1
    then ltb (j.axes joystick_right 1) j.dac_value
    else if mux_state == 2
    then ltb (j.axes joystick_left 0) j.dac_value
    else if mux_state == 3
    then ltb (j.axes joystick_left 1) j.dac_value
    else false

pub center_all : Joystick → Joystick
center_all j = record j { axes = λ _ _. axis_center }
