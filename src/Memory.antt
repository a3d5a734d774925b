-- ===== src/Memory.antt =====
-- The memory access of the processors in emulation/tcc1014mmu.cpp: `MemRead8` and its kin, which
-- choose between mapped pages, ports and the RAM vectors. `none` is an access outside the buffers.
-- Both bytes of a word are read in address order.
pub mod Access
pub mod Words
mod Tests
use cutiecoco.Base.{
  ℕ, ◌+◌, ◌*◌, ◌/◌, ◌%◌, Bool, true, false, ◌&&◌, Option, some, none, List, [], ◌∷◌, ◌++◌, ltb,
  ◌==◌, if◌then◌else◌,
}
use cutiecoco.Base.Bits.{u16}
use cutiecoco.Calls.{Call}
use cutiecoco.Cartridge.{read_pak}
use cutiecoco.IoBus.{Machine, port_read, port_write}
use cutiecoco.Mmu.{Mmu, load, store, mapped_read, mapped_write, vector_page}

abbrev pub Read : Type 0
Read = Option (ℕ × Machine)

abbrev pub Write : Type 0
Write = Option (Machine × List Call)

abbrev pub reading : Machine → Option ℕ → Read
reading s none = none
reading s (some value) = some (value, s)

abbrev pub writing : Machine → Option Mmu → Write
writing s none = none
writing s (some m) = some (record s { mmu = m }, [])

-- A mapped page of the machine; the cartridge's bytes come from the cartridge port.
abbrev pub paged_read : ℕ → Machine → Read
paged_read address s = reading s (mapped_read s.mmu (λ a. read_pak a s.cartridge) address)

unfoldable pub mem_read8 : ℕ → Machine → Read
mem_read8 address s =
    if ltb address 0xfe00
    then paged_read address s
    else if ltb 0xfeff address
    then port_read address s
    else if s.mmu.ram_vectors
    then reading s (load s.mmu (vector_page s.mmu) (address % 0x2000))
    else paged_read address s

unfoldable pub mem_write8 : ℕ → ℕ → Machine → Write
mem_write8 byte address s =
    if ltb address 0xfe00
    then writing s (mapped_write s.mmu byte address)
    else if ltb 0xfeff address
    then some (port_write byte address s)
    else if s.mmu.ram_vectors
    then writing s (store s.mmu (vector_page s.mmu) (address % 0x2000) byte)
    else writing s (mapped_write s.mmu byte address)

-- `SafeMemRead8`, for the debugger, with the flag `mem_initializing`.
unfoldable pub safe_mem_read8 : Bool → ℕ → Machine → Read
safe_mem_read8 initializing address s =
    if initializing
    then some (0, s)
    else if ltb 0xfeff address && ltb address 0xff90
    then reading s (if ltb address s.mmu.ram_size then some (s.mmu.memory address) else none)
    else mem_read8 address s

abbrev and_then_read : Read → (ℕ → Machine → Read) → Read
and_then_read none f = none
and_then_read (some (value, s)) f = f value s

unfoldable pub mem_read16 : ℕ → Machine → Read
mem_read16 address s = and_then_read (mem_read8 address s) λ high s'.
    and_then_read (mem_read8 (u16 (address + 1)) s') λ low s''. some (high * 256 + low, s'')

abbrev and_then_write : Write → (Machine → Write) → Write
and_then_write none f = none
and_then_write (some (s, calls)) f = after (f s)
  where
    after : Write → Write
    after none = none
    after (some (s', more)) = some (s', calls ++ more)

unfoldable pub mem_write16 : ℕ → ℕ → Machine → Write
mem_write16 word address s =
    and_then_write (mem_write8 (word / 256) address s) (mem_write8 (word % 256) (u16 (address + 1)))
