-- ===== src/Keyboard.antt =====
-- emulation/src/keyboard.cpp and emulation/src/keymapping.cpp with their headers: the 7 by 8 key
-- matrix that the first PIA scans, and the mapping of characters to keys.
pub mod Keys
pub mod Matrix
pub mod Legends
mod Tests
use cutiecoco.Base.{ℕ, zero, suc, ◌+◌, ◌-◌, ◌/◌, ◌%◌, Bool, true, false, leb, if◌then◌else◌}
use cutiecoco.Base.Bits.{bit, set_bit, clear_bit}
use cutiecoco.Base.Maps.{update}
use Keys.{CocoKey, count}

-- One byte for each of the seven rows, with a bit for each pressed column.
pub record Keyboard : Type 0 where
  pub matrix : ℕ → ℕ

unfoldable pub init : Keyboard
init = record { matrix = λ _. 0 }

abbrev pub row_of : CocoKey → ℕ
row_of key = key / 8

abbrev pub col_of : CocoKey → ℕ
col_of key = key % 8

unfoldable pub key_down : CocoKey → Keyboard → Keyboard
unfolding update
key_down key k = if leb count key then k else record {
  matrix = update k.matrix (row_of key) (set_bit (k.matrix (row_of key)) (col_of key));
}

unfoldable pub key_up : CocoKey → Keyboard → Keyboard
unfolding update
key_up key k = if leb count key then k else record {
  matrix = update k.matrix (row_of key) (clear_bit (k.matrix (row_of key)) (col_of key));
}

unfoldable pub release_all : Keyboard → Keyboard
release_all k = record k { matrix = λ _. 0 }

unfoldable pub is_pressed : CocoKey → Keyboard → Bool
is_pressed key k = if leb count key then false else bit (k.matrix (row_of key)) (col_of key)

module _ (m : ℕ → ℕ) where
  -- The inner loop of `scan`, with `left` rows to go from `row`.
  pub scan_rows : ℕ → ℕ → ℕ → ℕ → ℕ
  scan_rows col zero row result = result
  scan_rows col (suc left) row result =
      scan_rows col left (row + 1) (if bit (m row) col then set_bit result row else result)

  -- The outer loop, with `left` columns to go from `col`; a 0 bit of the mask selects a column.
  pub scan_cols : ℕ → ℕ → ℕ → ℕ → ℕ
  scan_cols mask zero col result = result
  scan_cols mask (suc left) col result =
      scan_cols mask left (col + 1) (if bit mask col then result else scan_rows col 7 0 result)

-- `~result`, as an 8-bit value.
unfoldable pub scan : ℕ → Keyboard → ℕ
unfolding scan_cols scan_rows
scan mask k = 255 - scan_cols k.matrix mask 8 0 0
