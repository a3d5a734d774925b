-- ===== src/Keyboard/Matrix.antt =====
-- The matrix holds exactly the pressed keys, and a scan answers for the selected columns.
use cutiecoco.Base.{
  ℕ, zero, suc, ◌+◌, ◌*◌, ◌/◌, ◌%◌, ◌≤◌, ◌<◌, ◌≡◌, ◌∙◌, ap, ◌↔◌, ◌⊎◌, inl, inr, true, false, not,
  ◌&&◌, ◌||◌, arith, leb, ltb, ◌==◌, if◌then◌else◌, Bool-cases,
}
use cutiecoco.Base.Bits.{bit, set_bit}
use cutiecoco.Base.BitOps.{bit-set_bit, bit-clear_bit, bit_complement, set_bit-lt, bit_of_lt}
use native.Mathlib.Nat.{one-le-pow}
use cutiecoco.Keyboard.{Keyboard, key_down, key_up, is_pressed, scan_rows, scan_cols, scan}
use cutiecoco.Keyboard.Keys.{CocoKey, count}

-- Pressing a key presses that key and no other.
pub is_pressed-key_down :
    (key other : CocoKey) (k : Keyboard)
    → key < count
    → is_pressed other (key_down key k) ≡ (other == key) || is_pressed other k
unfolding is_pressed key_down
is_pressed-key_down key other k h =
    ground (arith, bit-set_bit (key % 8) (other % 8) (k.matrix (key / 8)))

-- Releasing a key releases that key and no other.
pub is_pressed-key_up :
    (key other : CocoKey) (k : Keyboard)
    → key < count
    → is_pressed other (key_up key k) ≡ not (other == key) && is_pressed other k
unfolding is_pressed key_up
is_pressed-key_up key other k h =
    ground (arith, bit-clear_bit (key % 8) (other % 8) (k.matrix (key / 8)))

module _ (m : ℕ → ℕ) where
  -- The inner loop adds the rows of its range that have the column pressed.
  bit-scan_rows :
      (col left row result r : ℕ)
      → bit (scan_rows m col left row result) r
        ≡ bit result r || (leb row r && ltb r (row + left)) && bit (m r) col
  unfolding scan_rows
  bit-scan_rows col zero row result r = ground arith
  bit-scan_rows col (suc left) row result r = elim (Bool-cases (bit (m row) col)) [
    | inl on ↦ rw on (
        bit-scan_rows col left (row + 1) (set_bit result row) r
        ∙ ground (arith, bit-set_bit row r result))
    | inr off ↦ rw off (bit-scan_rows col left (row + 1) result r ∙ ground arith)
  ]

  -- Row `r` is pressed in a selected column of `lo .. hi - 1`.
  abbrev Pressed : ℕ → ℕ → ℕ → ℕ → Type 0
  Pressed mask r lo hi =
      (col : ℕ) × (lo ≤ col) × (col < hi) × (bit mask col ≡ false) × (bit (m r) col ≡ true)

  -- One round of the outer loop.
  abbrev scan_col : ℕ → ℕ → ℕ → ℕ
  scan_col mask col result = if bit mask col then result else scan_rows m col 7 0 result

  bit-scan_col :
      (mask col result r : ℕ)
      → r < 7
      → bit (scan_col mask col result) r ≡ bit result r || not (bit mask col) && bit (m r) col
  bit-scan_col mask col result r h = elim (Bool-cases (bit mask col)) [
    | inl on ↦ rw on (ground arith)
    | inr off ↦ rw off (bit-scan_rows col 7 0 result r ∙ ground arith)
  ]

  scan_cols_hit :
      (mask left lo result r : ℕ)
      → r < 7
      → bit (scan_cols m mask left lo result) r ≡ true
      → (bit result r ≡ true) ⊎ Pressed mask r lo (lo + left)
  unfolding scan_cols
  scan_cols_hit mask zero lo result r h e = inl e
  scan_cols_hit mask (suc left) lo result r h e =
      elim (scan_cols_hit mask left (lo + 1) (scan_col mask lo result) r h e) [
        | inl now ↦ elim (Bool-cases (bit result r)) [
          | inl old ↦ inl old
          | inr new ↦ inr (
            lo,
            omega arith,
            omega arith,
            ground (arith, bit-scan_col mask lo result r h),
            ground (arith, bit-scan_col mask lo result r h),
          )
        ]
        | inr (c, a, b, off, on) ↦ inr (c, omega arith, omega arith, off, on)
      ]

  scan_cols_keeps :
      (mask left lo result r : ℕ)
      → r < 7
      → bit result r ≡ true
      → bit (scan_cols m mask left lo result) r ≡ true
  unfolding scan_cols
  scan_cols_keeps mask zero lo result r h e = e
  scan_cols_keeps mask (suc left) lo result r h e =
      scan_cols_keeps mask left (lo + 1) (scan_col mask lo result) r h
        (bit-scan_col mask lo result r h ∙ rw e)

  scan_cols_finds :
      (mask left lo result r col : ℕ)
      → r < 7
      → lo ≤ col
      → col < lo + left
      → bit mask col ≡ false
      → bit (m r) col ≡ true
      → bit (scan_cols m mask left lo result) r ≡ true
  unfolding scan_cols
  scan_cols_finds mask zero lo result r col h a b off on = absurd (omega arith)
  scan_cols_finds mask (suc left) lo result r col h a b off on = elim (Bool-cases (col == lo)) [
    | inl here ↦
        scan_cols_keeps mask left (lo + 1) (scan_col mask lo result) r h
          (ground (arith, bit-scan_col mask lo result r h))
    | inr later ↦
        scan_cols_finds mask left (lo + 1) (scan_col mask lo result) r col h (ground arith)
          (omega arith) off on
  ]

  scan_rows-lt :
      (col left row result : ℕ)
      → row + left ≤ 8
      → result < 256
      → scan_rows m col left row result < 256
  unfolding scan_rows
  scan_rows-lt col zero row result a h = h
  scan_rows-lt col (suc left) row result a h =
      scan_rows-lt col left (row + 1) (if bit (m row) col then set_bit result row else result)
        (omega arith)
        (elim (Bool-cases (bit (m row) col)) [
          | inl on ↦ rw on (set_bit-lt 8 row result h (omega arith))
          | inr off ↦ rw off h
        ])

  scan_cols-lt : (mask left lo result : ℕ) → result < 256 → scan_cols m mask left lo result < 256
  unfolding scan_cols
  scan_cols-lt mask zero lo result h = h
  scan_cols-lt mask (suc left) lo result h =
      scan_cols-lt mask left (lo + 1) (scan_col mask lo result) (elim (Bool-cases (bit mask lo)) [
        | inl on ↦ rw on h
        | inr off ↦ rw off (scan_rows-lt lo 7 0 result (omega arith) h)
      ])

bit-zero : (r : ℕ) → r < 8 → bit 0 r ≡ false
bit-zero r h = bit_of_lt r 0 (one-le-pow r 2 (omega arith))

bit-scan :
    (mask row : ℕ) (k : Keyboard)
    → row < 7
    → bit (scan mask k) row ≡ not (bit (scan_cols k.matrix mask 8 0 0) row)
unfolding scan
bit-scan mask row k h =
    bit_complement 8 row (scan_cols k.matrix mask 8 0 0)
      (scan_cols-lt k.matrix mask 8 0 0 (omega arith)) (omega arith)

key_of_column :
    (mask row : ℕ) (k : Keyboard)
    → row < 7
    → Pressed k.matrix mask row 0 8
    → (key : CocoKey) × (key < count)
      × (key / 8 ≡ row)
      × (bit mask (key % 8) ≡ false)
      × (is_pressed key k ≡ true)
unfolding is_pressed
key_of_column mask row k h (col, a, b, off, on) =
    let quotient : (row * 8 + col) / 8 ≡ row = omega arith in
    let rest : (row * 8 + col) % 8 ≡ col = omega arith in
    (row * 8 + col, omega arith, quotient, rw rest off, rw (quotient, rest) (ground arith))

column_of_key :
    (mask row : ℕ) (k : Keyboard)
    → ((key : CocoKey) × (key < count)
        × (key / 8 ≡ row)
        × (bit mask (key % 8) ≡ false)
        × (is_pressed key k ≡ true))
    → Pressed k.matrix mask row 0 8
unfolding is_pressed
column_of_key mask row k (key, lt, e, sel, on) =
    (key % 8, omega arith, omega arith, sel, ground arith)

low→Pressed :
    (mask row : ℕ) (k : Keyboard)
    → row < 7
    → bit (scan mask k) row ≡ false
    → Pressed k.matrix mask row 0 8
low→Pressed mask row k h low =
    elim (scan_cols_hit k.matrix mask 8 0 0 row h (ground (arith, bit-scan mask row k h))) [
      | inl e ↦ absurd (ground (arith, bit-zero row (omega arith)))
      | inr p ↦ p
    ]

Pressed→low :
    (mask row : ℕ) (k : Keyboard)
    → row < 7
    → Pressed k.matrix mask row 0 8
    → bit (scan mask k) row ≡ false
Pressed→low mask row k h (col, a, b, off, on) =
    bit-scan mask row k h ∙ ap not (scan_cols_finds k.matrix mask 8 0 0 row col h a b off on)

-- A row line of a scan is low exactly if some key of that row is pressed whose column the mask
-- selects by a 0 bit: the scan transposes the stored matrix and confuses no two rows.
pub scan_row_low_iff :
    (mask row : ℕ) (k : Keyboard)
    → row < 7
    → (bit (scan mask k) row ≡ false) ↔ (
        (key : CocoKey) × (key < count)
        × (key / 8 ≡ row)
        × (bit mask (key % 8) ≡ false)
        × (is_pressed key k ≡ true))
scan_row_low_iff mask row k h = (
  λ low. key_of_column mask row k h (low→Pressed mask row k h low),
  λ p. Pressed→low mask row k h (column_of_key mask row k p),
)
