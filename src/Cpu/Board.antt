-- ===== src/Cpu/Board.antt =====
-- The processor of emulation/mc6809.cpp on the memory of emulation/tcc1014mmu.cpp and
-- emulation/iobus.cpp: the calls to MemRead8, MemWrite8 and SetMapType reach the machine. What a
-- write asks of the other units is collected in order.
use cutiecoco.Base.{ℕ, ◌<◌, ◌≡◌, some, List, ◌++◌, arith}
use cutiecoco.Base.Bits.{u8, u16}
use cutiecoco.Calls.{Call}
use cutiecoco.Cpu.Bus.{Bus}
use cutiecoco.IoBus.{Machine}
use cutiecoco.IoBus.Reach.{IsReady}
use cutiecoco.Memory.{mem_write8}
use cutiecoco.Memory.Access.{mem_read8-Answers, mem_write8-Accepts}
use cutiecoco.Mmu.{set_map_type}
use cutiecoco.Mmu.Validity.{set_map_type-IsValid}

pub record Board : Type 0 where
  pub machine : Machine
  pub ready : IsReady machine
  pub calls : List Call

pub u8-lt : (v : ℕ) → u8 v < 256
u8-lt v = omega arith

unfoldable pub board_read : ℕ → Board → ℕ × Board
board_read address b =
    let answered = mem_read8-Answers (u16 address) b.machine b.ready in
    (
      u8 answered.value,
      record { machine = answered.after; ready = answered.ready; calls = b.calls },
    )

unfoldable pub board_write : ℕ → ℕ → Board → Board
board_write byte address b =
    let accepted = mem_write8-Accepts (u8 byte) (u16 address) b.machine (u8-lt byte) b.ready in
    record { machine = accepted.after; ready = accepted.ready; calls = b.calls ++ accepted.calls }

unfoldable pub board_map : ℕ → Board → Board
board_map type b = record {
  machine = record b.machine { mmu = set_map_type type b.machine.mmu };
  ready = record {
    mmu_valid = set_map_type-IsValid type b.machine.mmu b.ready.mmu_valid;
    sam_reset = b.ready.sam_reset;
  };
  calls = b.calls;
}

instance abbrev pub board-Bus : Bus Board
unfolding board_read
board-Bus = record {
  read8 = board_read;
  write8 = board_write;
  set_map = board_map;
  read8-lt = λ address b. omega arith;
}

-- What a write of the machine does is what the board shows, with the byte and the address as the
-- processor passes them.
record Written (byte address : ℕ) (b : Board) : Type 0 where
  more : List Call
  done :
      mem_write8 byte (u16 address) b.machine
      ≡ some ((board_write (u8 byte) (u16 address) b).machine, more)
  logged : (board_write (u8 byte) (u16 address) b).calls ≡ b.calls ++ more
