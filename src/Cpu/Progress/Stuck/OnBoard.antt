-- ===== src/Cpu/Progress/Stuck/OnBoard.antt =====
-- The trap of the undocumented reset on the memory of emulation/tcc1014mmu.cpp.
use cutiecoco.Base.{
  ℕ, ◌+◌, ◌/◌, ◌%◌, ◌<◌, ◌≡◌, refl, ◌∙◌, ap, sym, subst, some, some_inj, none, arith, lt→ltb, Bool,
  true, false, ◌&&◌, ◌||◌, ltb, leb,
}
use cutiecoco.Base.Bits.{u8, u16}
use cutiecoco.Cartridge.{read_pak}
use cutiecoco.Cpu.Board.{Board, board_read, board_map, board-Bus}
use cutiecoco.Cpu.Exec.{cpu_exec}
use cutiecoco.Cpu.Progress.Stuck.{Trap, quiet, cpu_exec-reset}
use cutiecoco.Cpu.Registers.{Cpu}
use cutiecoco.IoBus.{port_read, is_pia0, is_pia1, is_sam, is_vector}
use cutiecoco.IoBus.Reach.{sam_read_total}
use cutiecoco.Memory.{mem_read8, reading}
use cutiecoco.Memory.Access.{mem_read8-Answers}
use cutiecoco.Mmu.{Mmu, set_map_type}
use cutiecoco.Mmu.Access.{view_read, address_view, mapped_read_lem}
use cutiecoco.Mmu.Pages.{View, in_ram, in_rom, in_pak, nowhere, view}
use cutiecoco.Mmu.Validity.{update_mmu_array_frame}

-- The vector at the end of the internal ROM names an address below $FE00 where RAM or the internal
-- ROM holds 0x3E, with the map type of a reset.
pub record LeadsBack (target : ℕ) (m : Mmu) : Type 0 where
  pub below : target < 0xfe00
  pub mapped : m.map_type ≡ 0
  pub high : m.internal_rom 0x7ffe ≡ target / 256
  pub low : m.internal_rom 0x7fff ≡ target % 256
  pub opcode : (pak : ℕ → ℕ) → view_read m pak (address_view m target) (target % 0x2000) ≡ 0x3e

view_read_same :
    (m n : Mmu) (pak : ℕ → ℕ) (w : View) (offset : ℕ)
    → n.memory ≡ m.memory
    → n.internal_rom ≡ m.internal_rom
    → view_read n pak w offset ≡ view_read m pak w offset
view_read_same m n pak (in_ram base) offset e f = ap (λ g. g (base + offset)) e
view_read_same m n pak (in_rom base) offset e f = ap (λ g. g (base + offset)) f
view_read_same m n pak (in_pak base) offset e f = refl
view_read_same m n pak nowhere offset e f = refl

set_map_type-LeadsBack :
    (target : ℕ) (m : Mmu) → LeadsBack target m → LeadsBack target (set_map_type 0 m)
unfolding set_map_type address_view view
set_map_type-LeadsBack target m h =
    let (config, _, rom_map, _, state, _, registers, memory, type, bytes) =
      update_mmu_array_frame (record m { map_type = 0 }) in
    record {
      below = h.below;
      mapped = type;
      high = ap (λ g. g 0x7ffe) bytes ∙ h.high;
      low = ap (λ g. g 0x7fff) bytes ∙ h.low;
      opcode = λ pak.
          view_read_same m (set_map_type 0 m) pak (address_view (set_map_type 0 m) target)
            (target % 0x2000) memory bytes
          ∙ ap (λ w. view_read m pak w (target % 0x2000))
              (rw (config, rom_map, state, registers, type, h.mapped) refl)
          ∙ h.opcode pak;
    }

-- The addresses of the vectors.
abbrev is_in_vectors : ℕ → Bool
is_in_vectors address = leb 0xfff0 address && leb address 0xffff

-- A byte of a vector, as the SAM answers it.
vector_byte :
    (address : ℕ) (b : Board)
    → is_in_vectors address ≡ true
    → (mem_read8-Answers address b.machine b.ready).value
      ≡ b.machine.mmu.internal_rom (0x7f00 + address % 256)
unfolding mem_read8 port_read
vector_byte address b h =
    ap (λ r. r.0) (some_inj (sym (mem_read8-Answers address b.machine b.ready).answer ∙ answered))
  where
    outside : ltb address 0xfe00 ≡ false
    outside = ground (arith, h)

    beyond : ltb 0xfeff address ≡ true
    beyond = ground (arith, h)

    not_pia0 : is_pia0 (address % 256) ≡ false
    not_pia0 = ground (arith, h)

    not_pia1 : is_pia1 (address % 256) ≡ false
    not_pia1 = ground (arith, h)

    a_vector : is_sam (address % 256) || is_vector (address % 256) ≡ true
    a_vector = ground (arith, h)

    ended : (leb 0xf0 (address % 256) && leb (address % 256) 0xff) ≡ true
    ended = ground (arith, h)

    answered :
        mem_read8 address b.machine
        ≡ some (b.machine.mmu.internal_rom (0x7f00 + address % 256), b.machine)
    answered =
        rw (outside, beyond, not_pia0, not_pia1, a_vector)
          (rw
            (sam_read_total (address % 256) b.machine.gime b.machine.mmu (omega arith)
              b.ready.sam_reset)
            (rw ended refl))

opcode_byte :
    (target : ℕ) (b : Board)
    → LeadsBack target b.machine.mmu
    → (mem_read8-Answers target b.machine b.ready).value ≡ 0x3e
unfolding mem_read8
opcode_byte target b h =
    ap (λ r. r.0) (some_inj (sym (mem_read8-Answers target b.machine b.ready).answer ∙ answered))
  where
    answered : mem_read8 target b.machine ≡ some (0x3e, b.machine)
    answered = rw (lt→ltb target 0xfe00 h.below) (
        ap (reading b.machine) (
          mapped_read_lem b.machine.mmu (λ a. read_pak a b.machine.cartridge) target
            b.ready.mmu_valid
          ∙ ap some (h.opcode (λ a. read_pak a b.machine.cartridge))))

board-Trap : (target : ℕ) → target < 0xfe00 → Trap Board
unfolding board_read board_map
board-Trap target lt = record {
  target = target;
  In = λ b. LeadsBack target b.machine.mmu;
  target-lt = omega arith;
  vector_high = λ b h. ap u8 (vector_byte 0xfffe b refl ∙ h.high) ∙ omega arith;
  vector_low = λ b h. ap u8 (vector_byte 0xffff b refl ∙ h.low) ∙ omega arith;
  opcode = λ b h.
      subst (λ y. u8 (mem_read8-Answers y b.machine b.ready).value ≡ 0x3e) (omega arith)
        (ap u8 (opcode_byte target b h));
  after_read = λ address b h.
      subst (LeadsBack target) (sym (mem_read8-Answers (u16 address) b.machine b.ready).same_mmu) h;
  after_map = λ b h. set_map_type-LeadsBack target b.machine.mmu h;
}

-- On the machine a slice of at least one cycle that starts at the opcode 0x3E of the undocumented
-- reset does not end within any number of rounds, if the reset vector leads back to that opcode, in
-- RAM or the internal ROM below $FE00 under the map type of a reset, and nothing is pending, waiting
-- or stopped.
pub cpu_exec-stuck :
    (fuel cycle_for target : ℕ) (c : Cpu) (b : Board)
    → 0 < cycle_for
    → LeadsBack target b.machine.mmu
    → (cpu_exec fuel cycle_for (quiet target c b)).0 ≡ none
unfolding board-Trap
cpu_exec-stuck fuel cycle_for target c b lt h =
    cpu_exec-reset (board-Trap target h.below) fuel cycle_for c b lt h
