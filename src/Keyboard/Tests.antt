-- ===== src/Keyboard/Tests.antt =====
-- The theorems of the keyboard at concrete matrices and characters.
use cutiecoco.Base.{◌/◌, ◌%◌, ◌<◌, ◌≡◌, refl, ◌↔◌, true, false, arith}
use cutiecoco.Base.Bits.{bit}
use cutiecoco.Keyboard.{Keyboard, init, key_down, is_pressed, scan}
use cutiecoco.Keyboard.Keys.{CocoKey, CocoKeyCombo, count, map_char_to_coco, key_1}
use cutiecoco.Keyboard.Matrix.{scan_row_low_iff}
use cutiecoco.Keyboard.Legends.{legend, legend-map_char_to_coco}

-- Key 10 is `J`, in row 1 and column 2.
abbrev one_key : Keyboard
one_key = key_down 10 init

scan_selected : scan 0xfb one_key ≡ 0xfd
unfolding scan key_down init
scan_selected = refl

scan_elsewhere : scan 0xfe one_key ≡ 0xff
unfolding scan key_down init
scan_elsewhere = refl

scan_row_low_iff_example : (bit (scan 0xfb one_key) 1 ≡ false) ↔ (
    (key : CocoKey) × (key < count)
    × (key / 8 ≡ 1)
    × (bit 0xfb (key % 8) ≡ false)
    × (is_pressed key one_key ≡ true))
scan_row_low_iff_example = scan_row_low_iff 0xfb 1 one_key (omega arith)

abbrev exclamation : CocoKeyCombo
exclamation = record { key = key_1; shift = true }

legend-map_char_to_coco_example : (legend exclamation ≡ b'!') × (key_1 < count)
legend-map_char_to_coco_example =
    legend-map_char_to_coco b'!' exclamation (unfold map_char_to_coco in refl)
