-- ===== src/Mmu/Tests.antt =====
-- The theorems of the MMU at concrete states.
use cutiecoco.Base.{ℕ, ◌≡◌, refl, false, ◌&&◌, some, none, arith, if◌then◌else◌, ◌%◌}
use cutiecoco.Base.Maps.{update}
use cutiecoco.Mmu.{
  update_mmu_array, load, Mmu, null, mmu_init, set_mmu_enabled, set_map_type, set_mmu_register,
  mapped_read, mapped_write, is_writable, mem_check_write,
}
use cutiecoco.Mmu.Validity.{IsValid}
use cutiecoco.Mmu.Reach.{Reach, here, next, register, enabled, map_type, Reach-IsValid}
use cutiecoco.Mmu.Access.{
  address_view, view_read, is_same_byte, mapped_read_lem, mapped_write_lem, mem_check_write_lem,
}

abbrev blank : Mmu
blank = record {
  memory = λ i. 0;
  internal_rom = λ i. 0;
  mem_pages = λ i. null;
  mem_page_offsets = λ i. 0;
  registers = λ t i. 0;
  mmu_task = 0;
  mmu_enabled = 0;
  ram_vectors = false;
  mmu_state = 0;
  rom_map = 0;
  map_type = 0;
  current_ram_config = 0;
  mmu_prefix = 0;
  ram_size = 0;
}

-- A machine of 512K with no ROM file.
abbrev fresh : Mmu
fresh = (mmu_init 1 none blank).0

-- All RAM, translated, with page 5 at $4000.
abbrev mapped : Mmu
mapped = set_mmu_enabled 1 (set_map_type 1 (set_mmu_register 0xa2 5 fresh))

mapped_steps : Reach fresh mapped
mapped_steps =
    next (next (next here (register _ 0xa2 5 (omega arith))) (map_type _ 1)) (enabled _ 1)

Reach-IsValid_example : IsValid mapped
Reach-IsValid_example = Reach-IsValid 1 none blank (omega arith) mapped_steps

mapped-IsValid : IsValid mapped
mapped-IsValid = Reach-IsValid 1 none blank (omega arith) mapped_steps

abbrev no_pak : ℕ → ℕ
no_pak a = 0xff

mapped_read_lem_example :
    mapped_read mapped no_pak 0x4001
    ≡ some (view_read mapped no_pak (address_view mapped 0x4001) (0x4001 % 0x2000))
mapped_read_lem_example = mapped_read_lem mapped no_pak 0x4001 mapped-IsValid

mapped_write_lem_example :
    (n : Mmu) × (mapped_write mapped 7 0x4001 ≡ some n)
    × ((pak : ℕ → ℕ) (other : ℕ)
        → mapped_read n pak other ≡ (
            if is_writable mapped 0x4001
              && is_same_byte
                  (address_view mapped 0x4001)
                  (0x4001 % 0x2000)
                  (address_view mapped other)
                  (other % 0x2000)
            then some 7
            else mapped_read mapped pak other))
mapped_write_lem_example = mapped_write_lem mapped 7 0x4001 mapped-IsValid

mem_check_write_lem_example :
    (n : Mmu) × (mapped_write mapped 7 0x4001 ≡ some n)
    × ((pak : ℕ → ℕ)
        → mapped_read n pak 0x4001
          ≡ (if mem_check_write mapped 0x4001 then some 7 else mapped_read mapped pak 0x4001))
mem_check_write_lem_example = mem_check_write_lem mapped 7 0x4001 mapped-IsValid (omega arith)

-- The byte that the page register selects.
paged : mapped_read (set_mmu_enabled 1 fresh) no_pak 0x0001 ≡ some 0
unfolding mapped_read set_mmu_enabled mmu_init update_mmu_array update load
paged = refl
