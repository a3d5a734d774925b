-- ===== src/Cpu/Stack.antt =====
-- The stack instructions of emulation/mc6809.cpp, and the entry into interrupts.
use cutiecoco.Base.{ℕ, Bool, true, false, if◌then◌else◌}
use cutiecoco.Base.Bits.{bit, clear_bit}
use cutiecoco.Cpu.{Interrupts}
use cutiecoco.Cpu.Bus.{
  Bus, Act, pure, update_lines, ◌>>=◌, ◌>>◌, gets, get, put, put_byte, put_code, tick, load16,
  fetch8, push8, pull8, push16, pull16,
}
use cutiecoco.Cpu.Registers.{
  Reg16, Reg8, reg_x, reg_y, reg_u, reg_s, reg_pc, reg_a, reg_b, reg_dp, reg_cc, get8, irq_mask,
  firq_mask, entire,
}

-- The vectors of mc6809defs.h.
abbrev pub vector_swi3 : ℕ
vector_swi3 = 0xfff2

abbrev pub vector_swi2 : ℕ
vector_swi2 = 0xfff4

abbrev pub vector_firq : ℕ
vector_firq = 0xfff6

abbrev pub vector_irq : ℕ
vector_irq = 0xfff8

abbrev pub vector_swi : ℕ
vector_swi = 0xfffa

abbrev pub vector_nmi : ℕ
vector_nmi = 0xfffc

abbrev pub vector_reset : ℕ
vector_reset = 0xfffe

abbrev pub no_longer_pending : ℕ → Interrupts → Interrupts
no_longer_pending k l = record l { pending_interrupts = clear_bit l.pending_interrupts k }

abbrev pub interrupted : Bool → Interrupts → Interrupts
interrupted b l = record l { in_interrupt = b }

module _ {M : Type 0} ⦃bus : Bus M⦄ where
  unfoldable pub push_word : Reg16 → Reg16 → Act M Unit
  push_word stack r = get r >>= push16 stack

  unfoldable pub push_byte : Reg16 → Reg8 → Act M Unit
  push_byte stack r = gets (get8 r) >>= push8 stack

  unfoldable pub pull_word : Reg16 → Reg16 → Act M Unit
  pull_word stack r = pull16 stack >>= put r

  unfoldable pub pull_byte : Reg16 → Reg8 → Act M Unit
  pull_byte stack r = pull8 stack >>= put_byte r

  abbrev pub when : Bool → Act M Unit → Act M Unit
  when b m = if b then m else pure tt

  -- `PSHS` and `PSHU` with the postbyte; `other` is the other stack register.
  unfoldable pub push_list : Reg16 → Reg16 → ℕ → Act M Unit
  push_list stack other p = do
    when (bit p 7) (push_word stack reg_pc >> tick 2)
    when (bit p 6) (push_word stack other >> tick 2)
    when (bit p 5) (push_word stack reg_y >> tick 2)
    when (bit p 4) (push_word stack reg_x >> tick 2)
    when (bit p 3) (push_byte stack reg_dp >> tick 1)
    when (bit p 2) (push_byte stack reg_b >> tick 1)
    when (bit p 1) (push_byte stack reg_a >> tick 1)
    when (bit p 0) (push_byte stack reg_cc >> tick 1)

  -- `PULS` and `PULU`.
  unfoldable pub pull_list : Reg16 → Reg16 → ℕ → Act M Unit
  pull_list stack other p = do
    when (bit p 0) (pull_byte stack reg_cc >> tick 1)
    when (bit p 1) (pull_byte stack reg_a >> tick 1)
    when (bit p 2) (pull_byte stack reg_b >> tick 1)
    when (bit p 3) (pull_byte stack reg_dp >> tick 1)
    when (bit p 4) (pull_word stack reg_x >> tick 2)
    when (bit p 5) (pull_word stack reg_y >> tick 2)
    when (bit p 6) (pull_word stack other >> tick 2)
    when (bit p 7) (pull_word stack reg_pc >> tick 2)

  unfoldable pub psh : Reg16 → Reg16 → Act M Unit
  psh stack other = do p ← fetch8; push_list stack other p; tick 5

  unfoldable pub pul : Reg16 → Reg16 → Act M Unit
  pul stack other = do p ← fetch8; pull_list stack other p; tick 5

  -- `s.Reg--`, the two bytes of the return address, and the new address in `pc`: the body of the
  -- subroutine calls.
  unfoldable pub call : ℕ → ℕ → Act M Unit
  call target cycles = do push_word reg_s reg_pc; put reg_pc target; tick cycles

  -- Code E, and every register on the stack.
  unfoldable pub push_entire : Act M Unit
  push_entire = do
    put_code entire true
    push_word reg_s reg_pc
    push_word reg_s reg_u
    push_word reg_s reg_y
    push_word reg_s reg_x
    push_byte reg_s reg_dp
    push_byte reg_s reg_b
    push_byte reg_s reg_a
    push_byte reg_s reg_cc

  unfoldable pub through_vector : ℕ → Act M Unit
  through_vector vector = load16 vector >>= put reg_pc

  unfoldable pub swi1 : Act M Unit
  swi1 = do
    push_entire
    through_vector vector_swi
    tick 19
    put_code irq_mask true
    put_code firq_mask true

  -- `SWI2` and `SWI3` do not mask interrupts.
  unfoldable pub swi_unmasked : ℕ → Act M Unit
  swi_unmasked vector = do push_entire; through_vector vector; tick 20

  unfoldable pub enter_firq : Act M Unit
  enter_firq = do
    update_lines (interrupted true)
    put_code entire false
    push_word reg_s reg_pc
    push_byte reg_s reg_cc
    put_code irq_mask true
    put_code firq_mask true
    through_vector vector_firq
    tick 15

  unfoldable pub cpu_firq : Act M Unit
  cpu_firq = do
    masked ← gets (λ c. c.codes firq_mask)
    if masked then pure tt else enter_firq
    update_lines (no_longer_pending 1)

  unfoldable pub enter_irq : Act M Unit
  enter_irq = do push_entire; through_vector vector_irq; put_code irq_mask true; tick 24

  -- While a FIRQ runs the IRQ is postponed.
  unfoldable pub cpu_irq : Act M Unit
  cpu_irq = do
    postponed ← gets (λ c. c.lines.in_interrupt)
    masked ← gets (λ c. c.codes irq_mask)
    (if postponed
        then pure tt
        else ((if masked then pure tt else enter_irq) >> update_lines (no_longer_pending 0)))

  unfoldable pub cpu_nmi : Act M Unit
  cpu_nmi = do
    push_entire
    put_code irq_mask true
    put_code firq_mask true
    through_vector vector_nmi
    tick 24
    update_lines (no_longer_pending 2)

  unfoldable pub pull_registers : Act M Unit
  pull_registers = do
    pull_byte reg_s reg_a
    pull_byte reg_s reg_b
    pull_byte reg_s reg_dp
    pull_word reg_s reg_x
    pull_word reg_s reg_y
    pull_word reg_s reg_u
    tick 9

  unfoldable pub rti : Act M Unit
  rti = do
    pull_byte reg_s reg_cc
    tick 6
    update_lines (interrupted false)
    whole ← gets (λ c. c.codes entire)
    if whole then pull_registers else pure tt
    pull_word reg_s reg_pc

  unfoldable pub rts : Act M Unit
  rts = do pull_word reg_s reg_pc; tick 5
