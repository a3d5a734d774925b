-- ===== src/Memory/Tests.antt =====
-- The theorems of memory access on a fresh machine, with all RAM mapped for the words.
use cutiecoco.Base.{◌≡◌, refl, some, [], arith}
use cutiecoco.IoBus.{Machine}
use cutiecoco.IoBus.Reach.{IsReady, Answers}
use cutiecoco.IoBus.Tests.{fresh, fresh-IsReady}
use cutiecoco.Memory.{mem_read8, mem_write8, mem_read16, mem_write16}
use cutiecoco.Memory.Access.{Accepts, mem_read8-Answers, mem_write8-Accepts}
use cutiecoco.Memory.Words.{mem_read16-mem_write16}
use cutiecoco.Mmu.{set_map_type, update_mmu_array}
use cutiecoco.Mmu.Validity.{set_map_type-IsValid}

mem_read8-Answers_example : Answers fresh (mem_read8 0xc000 fresh)
mem_read8-Answers_example = mem_read8-Answers 0xc000 fresh fresh-IsReady

mem_write8-Accepts_example : Accepts (mem_write8 7 0xff00 fresh)
mem_write8-Accepts_example = mem_write8-Accepts 7 0xff00 fresh (omega arith) fresh-IsReady

abbrev all_ram : Machine
all_ram = record fresh { mmu = set_map_type 1 fresh.mmu }

all_ram-IsReady : IsReady all_ram
all_ram-IsReady = record {
  mmu_valid = set_map_type-IsValid 1 fresh.mmu fresh-IsReady.mmu_valid;
  sam_reset = refl;
}

mem_read16-mem_write16_example :
    (s' : Machine) × (mem_write16 0x1234 0x1fff all_ram ≡ some (s', []))
    × (mem_read16 0x1fff s' ≡ some (0x1234, s'))
mem_read16-mem_write16_example =
    mem_read16-mem_write16 0x1234 0x1fff all_ram all_ram-IsReady (omega arith) (omega arith)
      (unfold set_map_type update_mmu_array in refl) (unfold set_map_type update_mmu_array in refl)
