-- ===== src/Memory/Words.antt =====
-- Words of two bytes in writable pages.
use cutiecoco.Base.{ℕ, ◌+◌, ◌*◌, ◌/◌, ◌%◌, ◌<◌, ◌≡◌, ◌≢◌, ap, true, some, [], arith, lt→ltb}
use native.Mathlib.Nat.{mod-eq_of_lt}
use cutiecoco.Base.Bits.{u16}
use cutiecoco.Base.Maps.{update_self, update_ne}
use cutiecoco.Cartridge.{read_pak}
use cutiecoco.IoBus.{Machine}
use cutiecoco.IoBus.Reach.{IsReady}
use cutiecoco.Memory.{reading, writing, mem_read8, mem_write8, mem_read16, mem_write16}
use cutiecoco.Mmu.{is_writable}
use cutiecoco.Mmu.Access.{with_byte, ram_index, ram_write, ram_read}
use cutiecoco.Mmu.Validity.{mapped_write-IsValid}

-- A byte of RAM of the machine.
abbrev pub with_ram : Machine → ℕ → ℕ → Machine
with_ram s index byte = record s { mmu = with_byte s.mmu index byte }

pub write_below :
    (byte address : ℕ) (s : Machine)
    → IsReady s
    → address < 0xfe00
    → is_writable s.mmu address ≡ true
    → mem_write8 byte address s ≡ some (with_ram s (ram_index s.mmu address) byte, [])
unfolding mem_write8
write_below byte address s h lt w =
    rw (lt→ltb address 0xfe00 lt) (ap (writing s) (ram_write s.mmu byte address h.mmu_valid w))

pub read_below :
    (address : ℕ) (s : Machine)
    → IsReady s
    → address < 0xfe00
    → is_writable s.mmu address ≡ true
    → mem_read8 address s ≡ some (s.mmu.memory (ram_index s.mmu address), s)
unfolding mem_read8
read_below address s h lt w =
    rw (lt→ltb address 0xfe00 lt)
      (ap (reading s) (ram_read s.mmu (λ a. read_pak a s.cartridge) address h.mmu_valid w))

with_ram-IsReady :
    (byte address : ℕ) (s : Machine)
    → IsReady s
    → is_writable s.mmu address ≡ true
    → IsReady (with_ram s (ram_index s.mmu address) byte)
with_ram-IsReady byte address s h w = record {
  mmu_valid =
      mapped_write-IsValid byte address s.mmu _ h.mmu_valid
        (ram_write s.mmu byte address h.mmu_valid w);
  sam_reset = h.sam_reset;
}

-- A word that is written below $FE00 to two bytes of RAM is read back whole, even where the two
-- bytes lie on different pages.
pub mem_read16-mem_write16 :
    (word address : ℕ) (s : Machine)
    → IsReady s
    → word < 65536
    → address + 1 < 0xfe00
    → is_writable s.mmu address ≡ true
    → is_writable s.mmu (address + 1) ≡ true
    → (s' : Machine) × (mem_write16 word address s ≡ some (s', []))
      × (mem_read16 address s' ≡ some (word, s'))
unfolding mem_read16 mem_write16
mem_read16-mem_write16 word address s h wl lt w1 w2 = (
  s2,
  rw (
    next_address,
    write_below (word / 256) address s h (omega arith) w1,
    write_below (word % 256) (address + 1) s1 h1 lt w2,
  ),
  rw (next_address, read_below address s2 h2 (omega arith) w1, read_below (address + 1) s2 h2 lt w2)
      (ap (λ w. some (w, s2)) joined),
)
  where
    next_address : u16 (address + 1) ≡ address + 1
    next_address = mod-eq_of_lt (omega arith)

    i1 : ℕ
    i1 = ram_index s.mmu address

    i2 : ℕ
    i2 = ram_index s.mmu (address + 1)

    s1 : Machine
    s1 = with_ram s i1 (word / 256)

    h1 : IsReady s1
    h1 = with_ram-IsReady (word / 256) address s h w1

    s2 : Machine
    s2 = with_ram s1 i2 (word % 256)

    h2 : IsReady s2
    h2 = with_ram-IsReady (word % 256) (address + 1) s1 h1 w2

    apart : i1 ≢ i2
    apart e = omega (arith, e)

    joined : s2.mmu.memory i1 * 256 + s2.mmu.memory i2 ≡ word
    joined =
        rw
          (
            update_self s1.mmu.memory i2 (word % 256),
            update_ne s1.mmu.memory i2 i1 (word % 256) apart,
            update_self s.mmu.memory i1 (word / 256),
          )
          (omega arith)
