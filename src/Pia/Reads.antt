-- ===== src/Pia/Reads.antt =====
-- What the program reads at the ports of the first PIA.
use Prim.Native.Nat.{bit_and, bit_or}
use cutiecoco.Base.{
  ℕ, zero, suc, ◌/◌, ◌%◌, ◌<◌, ◌≡◌, ◌↔◌, refl, ◌∙◌, ap, Bool, true, false, ◌&&◌, arith, ltb, leb,
  if◌then◌else◌, Bool-cases, lt→ltb, ◌⊎◌, inl, inr,
}
use cutiecoco.Base.Bits.{bit}
use cutiecoco.Base.BitLaws.{bit_or-zero}
use cutiecoco.Base.BitOps.{bit-bit_and, bit-bit_or}
use cutiecoco.Joystick
use cutiecoco.Joystick.{Joystick}
use cutiecoco.Keyboard
use cutiecoco.Keyboard.{Keyboard}
use cutiecoco.Keyboard.Keys.{CocoKey, count}
use cutiecoco.Keyboard.Matrix.{scan_row_low_iff}
use cutiecoco.Pia.{Pia, keyboard_lines, complement8, mux_state, pia0_read}

-- The bits of the masks of `pia0_read`.
masks :
    (r : ℕ)
    → r < 7
    → (bit 0xf0 r ≡ leb 4 r)
      × (bit 0x0f r ≡ ltb r 4)
      × (bit 0x7f r ≡ true)
      × (bit 0x80 r ≡ false)
      × (bit 0 r ≡ false)
masks zero h = (refl, refl, refl, refl, refl)
masks (suc zero) h = (refl, refl, refl, refl, refl)
masks (suc (suc zero)) h = (refl, refl, refl, refl, refl)
masks (suc (suc (suc zero))) h = (refl, refl, refl, refl, refl)
masks (suc (suc (suc (suc zero)))) h = (refl, refl, refl, refl, refl)
masks (suc (suc (suc (suc (suc zero))))) h = (refl, refl, refl, refl, refl)
masks (suc (suc (suc (suc (suc (suc zero)))))) h = (refl, refl, refl, refl, refl)
masks (suc (suc (suc (suc (suc (suc (suc r))))))) h = absurd (omega arith)

-- The columns that are strobed: the latch where the direction is output, high elsewhere.
abbrev pub columns : Pia → ℕ
columns p = bit_or (p.rega 2) (complement8 (p.rega_dd 2)) % 256

module _ (p : Pia) (k : Keyboard) (j : Joystick) where
  abbrev comparison : ℕ
  comparison = if Joystick.get_comparison_result (mux_state p) j then 0x80 else 0

  comparison_low : (r : ℕ) → r < 7 → bit comparison r ≡ false
  comparison_low r h = elim (Bool-cases (Joystick.get_comparison_result (mux_state p) j)) [
    | inl on ↦ rw on ((masks r h).3)
    | inr off ↦ rw off ((masks r h).4)
  ]

  -- A row line of $FF00 is the scan's, and on the lower four lines also the button's.
  pub keyboard_lines_row :
      (r : ℕ)
      → r < 7
      → bit (keyboard_lines p k j) r
        ≡ bit (Keyboard.scan (columns p) k) r
          && (if ltb r 4 then bit (Joystick.get_button_bits j) r else true)
  unfolding keyboard_lines
  keyboard_lines_row r h =
      let keys = Keyboard.scan (columns p) k in
      let buttons = Joystick.get_button_bits j in
      let low = bit_and (bit_and keys buttons) 0x0f in
      let lines = bit_or (bit_and keys 0xf0) low in
      ground (
        arith,
        bit-bit_or r (bit_and lines 0x7f) comparison,
        bit-bit_and r lines 0x7f,
        bit-bit_or r (bit_and keys 0xf0) low,
        bit-bit_and r keys 0xf0,
        bit-bit_and r (bit_and keys buttons) 0x0f,
        bit-bit_and r keys buttons,
        comparison_low r h,
        masks r h,
      )

columns_of_output : (p : Pia) → p.rega 2 < 256 → p.rega_dd 2 ≡ 0xff → columns p ≡ p.rega 2
columns_of_output p lt e = rw e (rw (bit_or-zero (p.rega 2)) (omega arith))

-- With port B set to output and the data register of port A selected, a row line of $FF00 reads
-- low exactly if a key of that row is pressed in a column that the latch $FF02 pulls low, or if it
-- is one of the lower four lines and its joystick button is pressed.
pub pia0_read_row_low_iff :
    (p : Pia) (k : Keyboard) (j : Joystick) (row : ℕ)
    → row < 7
    → p.rega 2 < 256
    → p.rega_dd 2 ≡ 0xff
    → bit (p.rega 1) 2 ≡ true
    → (bit (pia0_read 0 k j p).0 row ≡ false) ↔ (
        ((key : CocoKey) × (key < count)
          × (key / 8 ≡ row)
          × (bit (p.rega 2) (key % 8) ≡ false)
          × (Keyboard.is_pressed key k ≡ true))
        ⊎ ((row < 4) × (bit (Joystick.get_button_bits j) row ≡ false)))
pia0_read_row_low_iff p k j row h lt output selected = (to, from)
  where
    scanned : Bool
    scanned = bit (Keyboard.scan (columns p) k) row

    keys : (bit (Keyboard.scan (p.rega 2) k) row ≡ false) ↔ (
        (key : CocoKey) × (key < count)
        × (key / 8 ≡ row)
        × (bit (p.rega 2) (key % 8) ≡ false)
        × (Keyboard.is_pressed key k ≡ true))
    keys = scan_row_low_iff (p.rega 2) row k h

    at_columns : bit (Keyboard.scan (columns p) k) row ≡ bit (Keyboard.scan (p.rega 2) k) row
    at_columns = ap (λ c. bit (Keyboard.scan c k) row) (columns_of_output p lt output)

    line :
        bit (pia0_read 0 k j p).0 row
        ≡ bit (Keyboard.scan (columns p) k) row
          && (if ltb row 4 then bit (Joystick.get_button_bits j) row else true)
    line = unfold pia0_read in rw selected (keyboard_lines_row p k j row h)

    to :
        bit (pia0_read 0 k j p).0 row ≡ false
        → ((key : CocoKey) × (key < count)
            × (key / 8 ≡ row)
            × (bit (p.rega 2) (key % 8) ≡ false)
            × (Keyboard.is_pressed key k ≡ true))
          ⊎ ((row < 4) × (bit (Joystick.get_button_bits j) row ≡ false))
    to low = elim (Bool-cases (bit (Keyboard.scan (p.rega 2) k) row)) [
      | inr off ↦ inl (keys.0 off)
      | inl on ↦ inr (ground (arith, line, at_columns), ground (arith, line, at_columns))
    ]

    from :
        ((key : CocoKey) × (key < count)
            × (key / 8 ≡ row)
            × (bit (p.rega 2) (key % 8) ≡ false)
            × (Keyboard.is_pressed key k ≡ true))
          ⊎ ((row < 4) × (bit (Joystick.get_button_bits j) row ≡ false))
        → bit (pia0_read 0 k j p).0 row ≡ false
    from (inl pressed) = line ∙ rw (at_columns, keys.1 pressed)
    from (inr (low, button)) = line ∙ rw (lt→ltb row 4 low, button) (ground arith)
