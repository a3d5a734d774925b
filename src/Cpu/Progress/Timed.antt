-- ===== src/Cpu/Progress/Timed.antt =====
-- The opcodes of emulation/mc6809.cpp that take cycles: those with a `case`, except for the
-- undocumented reset.
use cutiecoco.Base.{ℕ, ◌/◌, ◌%◌, Bool, true, false, if◌then◌else◌, ◌==◌, ltb}
use cutiecoco.Cpu.Bus.{Bus, State, fetch8}

abbrev pub memory_timed : ℕ → Bool
memory_timed n =
    if n == 0
    then true
    else if n == 3
    then true
    else if n == 4
    then true
    else if n == 6
    then true
    else if n == 7
    then true
    else if n == 8
    then true
    else if n == 9
    then true
    else if n == 10
    then true
    else if n == 12
    then true
    else if n == 13
    then true
    else if n == 14
    then true
    else if n == 15
    then true
    else false

abbrev pub inherent_timed : ℕ → Bool
inherent_timed n =
    if n == 0
    then true
    else if n == 3
    then true
    else if n == 4
    then true
    else if n == 6
    then true
    else if n == 7
    then true
    else if n == 8
    then true
    else if n == 9
    then true
    else if n == 10
    then true
    else if n == 12
    then true
    else if n == 13
    then true
    else if n == 15
    then true
    else false

abbrev pub byte_timed : ℕ → Bool
byte_timed n =
    if n == 0
    then true
    else if n == 1
    then true
    else if n == 2
    then true
    else if n == 4
    then true
    else if n == 5
    then true
    else if n == 6
    then true
    else if n == 8
    then true
    else if n == 9
    then true
    else if n == 10
    then true
    else if n == 11
    then true
    else false

abbrev pub full_timed : ℕ → Bool
full_timed n =
    if n == 3
    then true
    else if n == 7
    then true
    else if n == 12
    then true
    else if n == 13
    then true
    else if n == 14
    then true
    else if n == 15
    then true
    else byte_timed n

abbrev pub left_timed : ℕ → Bool
left_timed n =
    if n == 3
    then true
    else if n == 12
    then true
    else if n == 13
    then true
    else if n == 14
    then true
    else byte_timed n

abbrev pub right_timed : ℕ → Bool
right_timed n =
    if n == 3 then true else if n == 12 then true else if n == 14 then true else byte_timed n

-- Without the prefixes 0x10 and 0x11.
abbrev pub control_timed : ℕ → Bool
control_timed n =
    if n == 0
    then false
    else if n == 1
    then false
    else if n == 2
    then true
    else if n == 3
    then true
    else if n == 5
    then true
    else if n == 6
    then true
    else if n == 7
    then true
    else if n == 9
    then true
    else if n == 10
    then true
    else if n == 12
    then true
    else if n == 13
    then true
    else if n == 14
    then true
    else if n == 15
    then true
    else false

abbrev pub stack_timed : ℕ → Bool
stack_timed n =
    if n == 9
    then true
    else if n == 10
    then true
    else if n == 11
    then true
    else if n == 12
    then true
    else if n == 13
    then true
    else if n == 14
    then false
    else if n == 15
    then true
    else false

abbrev pub page2_left_timed : ℕ → Bool
page2_left_timed op =
    if op == 0x83
    then true
    else if op == 0x8c
    then true
    else if op == 0x8e
    then true
    else if op == 0x93
    then true
    else if op == 0x9c
    then true
    else if op == 0x9e
    then true
    else if op == 0x9f
    then true
    else if op == 0xa3
    then true
    else if op == 0xac
    then true
    else if op == 0xae
    then true
    else if op == 0xaf
    then true
    else if op == 0xb3
    then true
    else if op == 0xbc
    then true
    else if op == 0xbe
    then true
    else if op == 0xbf
    then true
    else false

abbrev pub page2_right_timed : ℕ → Bool
page2_right_timed op =
    if op == 0xce
    then true
    else if op == 0xde
    then true
    else if op == 0xdf
    then true
    else if op == 0xee
    then true
    else if op == 0xef
    then true
    else if op == 0xfe
    then true
    else if op == 0xff
    then true
    else false

abbrev pub page2_timed : ℕ → Bool
page2_timed op =
    if op / 16 == 2
    then (if op % 16 == 0 then false else true)
    else if op == 0x3f
    then true
    else if op / 64 == 2
    then page2_left_timed op
    else page2_right_timed op

abbrev pub page3_timed : ℕ → Bool
page3_timed op =
    if op == 0x3e
    then true
    else if op == 0x3f
    then true
    else if op == 0x83
    then true
    else if op == 0x8c
    then true
    else if op == 0x93
    then true
    else if op == 0x9c
    then true
    else if op == 0xa3
    then true
    else if op == 0xac
    then true
    else if op == 0xb3
    then true
    else if op == 0xbc
    then true
    else false

abbrev pub row_timed : ℕ → ℕ → Bool
row_timed row n =
    if row == 0
    then memory_timed n
    else if row == 1
    then control_timed n
    else if row == 2
    then true
    else if row == 3
    then (if ltb n 8 then true else stack_timed n)
    else if row == 4
    then inherent_timed n
    else if row == 5
    then inherent_timed n
    else if row == 6
    then memory_timed n
    else if row == 7
    then memory_timed n
    else if row == 8
    then left_timed n
    else if row == 9
    then full_timed n
    else if row == 10
    then full_timed n
    else if row == 11
    then full_timed n
    else if row == 12
    then right_timed n
    else if row == 13
    then full_timed n
    else if row == 14
    then full_timed n
    else full_timed n

-- The opcode at `pc`, with its prefix, is one that takes cycles.
unfoldable pub timed_at : {M : Type 0} ⦃bus : Bus M⦄ → State M → Bool
timed_at s =
    let (op, s') = fetch8 s in
    let (second, s'') = fetch8 s' in
    if op == 0x10
    then page2_timed second
    else if op == 0x11
    then page3_timed second
    else row_timed (op / 16) (op % 16)
