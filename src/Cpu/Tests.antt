-- ===== src/Cpu/Tests.antt =====
-- The theorems of the processor's inputs at concrete codes and lines.
use cutiecoco.Base.{◌≡◌, true, false, not, ◌&&◌, ◌||◌, arith, ltb, ◌==◌}
use cutiecoco.Base.Bits.{bit}
use cutiecoco.Cpu.{Codes, Interrupts, set_cc_flags, get_cc_flags}
use cutiecoco.Base.{ℕ, refl, ◌+◌, ◌≤◌, ◌<◌, ◌≢◌, leb, none, [], if◌then◌else◌}
use cutiecoco.Base.Bits.{u8}
use cutiecoco.Base.Maps.{update}
use cutiecoco.IoBus.Tests.{fresh, fresh-IsReady}
use cutiecoco.Cpu.{collect}
use cutiecoco.Cpu.Alu.{cmp8, adc8, sbc8}
use cutiecoco.Cpu.Alu.Compare.{biased, condition-cmp8}
use cutiecoco.Cpu.Alu.Sums.{sum_fits, difference_fits, adc8-sbc8}
use cutiecoco.Cpu.Board.{Board, board-Bus}
use cutiecoco.Cpu.Operations.{condition}
use cutiecoco.Cpu.Registers.{carry, overflow}
use cutiecoco.Cpu.Progress.Instructions.{do_opcode-timed_at}
use cutiecoco.Cpu.Progress.Slices.{Program, cpu_exec-ends}
use cutiecoco.Cpu.Progress.Stuck.{quiet}
use cutiecoco.Cpu.Progress.Stuck.OnBoard.{LeadsBack, cpu_exec-stuck}
use cutiecoco.Cpu.Progress.Timed.{timed_at}
use cutiecoco.Cpu.Lifo.Interrupts.{Restored}
use cutiecoco.Cpu.Lifo.OnBoard.{rti-enter_irq}
use cutiecoco.IoBus.Reach.{IsReady}
use cutiecoco.Mmu.Access.{address_view}
use cutiecoco.Mmu.Pages.{view}
use cutiecoco.Mmu.Validity.{contents-IsValid}
use cutiecoco.Mmu.{Mmu, is_writable, mmu_init, mmu_reset, set_map_type, update_mmu_array}
use cutiecoco.Cpu.Stack.{rti, enter_irq, cpu_nmi}
use cutiecoco.Cpu.Widths.{IsWellFormed}
use cutiecoco.Cpu.Address.{direct}
use cutiecoco.Cpu.Alu.{logic8, add8}
use cutiecoco.Cpu.Bus.{
  Bus, State, ◌>>=◌, gets, modify, fetch8, load8, store8, update_word, update_byte, update_codes,
  update_lines, pure, tick,
}
use cutiecoco.Cpu.Operations.{result8, store_byte, arithmetic8}
use cutiecoco.Cpu.Registers.{Cpu, get16, set16, get8, set8}
use cutiecoco.Cpu.Rows.Accumulator.{row_80, row_90, row_left, byte_row}
use cutiecoco.Cpu.Exec.{
  cpu_exec, exec_loop, exec_round, run_unless_stopped, run_instruction, do_interrupts, do_opcode,
  instruction_row, advance_ramp, finish,
}
use cutiecoco.Cpu.Flags.{get_cc_flags-set_cc_flags}

abbrev masked : Codes
masked i = (i == 4) || (i == 6)

get_cc_flags-set_cc_flags_example :
    (bit (get_cc_flags masked) 6 ≡ ltb 6 8 && masked 6)
    × (get_cc_flags (set_cc_flags 0x8d masked) ≡ 0x8d)
    × (set_cc_flags (get_cc_flags masked) masked 6 ≡ masked 6)
get_cc_flags-set_cc_flags_example = get_cc_flags-set_cc_flags 0x8d 6 masked (omega arith)

abbrev asleep : Interrupts
asleep = record {
  pending_interrupts = 1;
  irq_waiter = 0;
  sync_waiting = true;
  in_interrupt = false;
}

-- A memory of 64K bytes that nothing else sees.
instance abbrev ram-Bus : Bus (ℕ → ℕ)
ram-Bus = record {
  read8 = λ address m. (u8 (m address), m);
  write8 = λ v address m. update m address v;
  set_map = λ t m. m;
  read8-lt = λ address m. omega arith;
}

abbrev at_start : Cpu
at_start = record {
  pc = 0;
  x = 0x1234;
  y = 0;
  u = 0;
  s = 0x100;
  a = 0;
  b = 0;
  dp = 0;
  codes = λ i. false;
  cycles = 0;
  ea = 0;
  lines = record {
    pending_interrupts = 0;
    irq_waiter = 0;
    sync_waiting = false;
    in_interrupt = false;
  };
  halted_ins_pending = false;
  breakpoints = [];
  trace_triggers = [];
  ramp_clock = 0;
}

-- `LDA #5; ADDA #3; STA <$10`, for ten cycles.
abbrev program : ℕ → ℕ
program n =
    if n == 0
    then 0x86
    else if n == 1
    then 5
    else if n == 2
    then 0x8b
    else if n == 3
    then 3
    else if n == 4
    then 0x97
    else if n == 5
    then 0x10
    else 0x12

abbrev sum_state : State (ℕ → ℕ)
sum_state = record { cpu = at_start; memory = program }

program_test : (cpu_exec 9 8 sum_state).1.memory 0x10 ≡ 8
unfolding cpu_exec exec_loop exec_round run_unless_stopped run_instruction do_interrupts do_opcode
    ◌>>=◌ gets modify fetch8 load8 store8 update_word update_byte update_codes update_lines get16
    set16 get8 set8 pure instruction_row row_80 row_90 row_left byte_row result8 store_byte
    arithmetic8 logic8 add8 direct tick advance_ramp finish update set_cc_flags get_cc_flags collect
program_test = refl

start-IsWellFormed : IsWellFormed at_start
start-IsWellFormed = record {
  pc-lt = omega arith;
  x-lt = omega arith;
  y-lt = omega arith;
  u-lt = omega arith;
  s-lt = omega arith;
  ea-lt = omega arith;
  a-lt = omega arith;
  b-lt = omega arith;
  dp-lt = omega arith;
}

do_opcode-timed_at_example : 0 < (do_opcode 8 sum_state).1.cpu.cycles
do_opcode-timed_at_example =
    do_opcode-timed_at 8 sum_state
      (unfold timed_at fetch8 load8 ◌>>=◌ gets modify update_word get16 set16 in refl) (omega arith)

-- A memory that reads as one byte everywhere.
abbrev same_byte : (v : ℕ) → v < 256 → Bus Unit
same_byte v lt = record {
  read8 = λ address m. (v, m);
  write8 = λ w address m. m;
  set_map = λ t m. m;
  read8-lt = λ address m. lt;
}

abbrev nops : Bus Unit
nops = same_byte 0x12 (omega arith)

abbrev Anywhere : State Unit → Type 0
Anywhere s = Unit

nops-Program : Program ⦃bus = nops⦄ 8 Anywhere
unfolding timed_at fetch8 load8 ◌>>=◌ gets modify update_word get16 set16
nops-Program = record { timed = λ s h. refl; stays = λ previous s h. tt }

cpu_exec-ends_example :
    (cpu_exec ⦃bus = nops⦄ 9 8 (record { cpu = at_start; memory = tt })).0 ≢ none
cpu_exec-ends_example =
    cpu_exec-ends ⦃bus = nops⦄ 8 Anywhere nops-Program (record { cpu = at_start; memory = tt }) tt

abbrev no_codes : Codes
no_codes i = false

condition-cmp8_example :
    ((condition 2 (cmp8 0x80 1 no_codes).1 ≡ ltb 1 0x80)
      × (condition 3 (cmp8 0x80 1 no_codes).1 ≡ leb 0x80 1)
      × (condition 4 (cmp8 0x80 1 no_codes).1 ≡ leb 1 0x80)
      × (condition 5 (cmp8 0x80 1 no_codes).1 ≡ ltb 0x80 1)
      × (condition 6 (cmp8 0x80 1 no_codes).1 ≡ not (0x80 == 1))
      × (condition 7 (cmp8 0x80 1 no_codes).1 ≡ (0x80 == 1)))
    × ((condition 12 (cmp8 0x80 1 no_codes).1 ≡ leb (biased 1) (biased 0x80))
        × (condition 13 (cmp8 0x80 1 no_codes).1 ≡ ltb (biased 0x80) (biased 1))
        × (condition 14 (cmp8 0x80 1 no_codes).1 ≡ ltb (biased 1) (biased 0x80))
        × (condition 15 (cmp8 0x80 1 no_codes).1 ≡ leb (biased 0x80) (biased 1)))
condition-cmp8_example = condition-cmp8 0x80 1 no_codes (omega arith) (omega arith)

adc8-sbc8_example :
    (((adc8 0x7f 1 no_codes).0 ≡ 0x80)
      × ((adc8 0x7f 1 no_codes).1 carry ≡ false)
      × ((adc8 0x7f 1 no_codes).1 overflow ≡ not (sum_fits 0x7f 1 0)))
    × (((sbc8 0x7f 1 no_codes).0 ≡ 0x7e)
        × ((sbc8 0x7f 1 no_codes).1 carry ≡ false)
        × ((sbc8 0x7f 1 no_codes).1 overflow ≡ not (difference_fits 0x7f 1 0)))
adc8-sbc8_example = adc8-sbc8 0x7f 1 no_codes (omega arith) (omega arith)

abbrev fresh_board : State Board
fresh_board = record {
  cpu = at_start;
  memory = record { machine = fresh; ready = fresh-IsReady; calls = [] };
}

-- The fresh machine's pages below $2000 take writes.
fresh_writable :
    (a : ℕ) → 0x100 ≤ a + 12 → a < 0x100 → is_writable fresh_board.memory.machine.mmu a ≡ true
unfolding mmu_init mmu_reset set_map_type update_mmu_array
fresh_writable a low high = ground arith

rti-enter_irq_example :
    Restored at_start 0x100 (rti (enter_irq fresh_board).1).1.cpu
    × Restored at_start 0x100 (rti (cpu_nmi fresh_board).1).1.cpu
rti-enter_irq_example =
    rti-enter_irq fresh_board start-IsWellFormed (omega arith) (omega arith) fresh_writable

-- A machine of which the ROM is full of 0x3E, with a reset vector of $8000.
abbrev trapped : Mmu
trapped = record fresh.mmu {
  internal_rom = λ i. if i == 0x7ffe then 0x80 else if i == 0x7fff then 0 else 0x3e;
}

trapped-IsReady : IsReady (record fresh { mmu = trapped })
trapped-IsReady = record {
  mmu_valid =
      contents-IsValid trapped.memory trapped.internal_rom fresh.mmu fresh-IsReady.mmu_valid;
  sam_reset = refl;
}

trapped-LeadsBack : LeadsBack 0x8000 trapped
unfolding mmu_init mmu_reset set_map_type update_mmu_array address_view view
trapped-LeadsBack = record {
  below = omega arith;
  mapped = refl;
  high = refl;
  low = refl;
  opcode = λ pak. refl;
}

abbrev trapped_board : Board
trapped_board = record {
  machine = record fresh { mmu = trapped };
  ready = trapped-IsReady;
  calls = [];
}

cpu_exec-stuck_example : (cpu_exec 1000 8 (quiet 0x8000 at_start trapped_board)).0 ≡ none
cpu_exec-stuck_example =
    cpu_exec-stuck 1000 8 0x8000 at_start trapped_board (omega arith) trapped-LeadsBack
