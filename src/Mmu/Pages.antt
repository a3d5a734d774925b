-- ===== src/Mmu/Pages.antt =====
-- What the page table should hold: a description of each of its entries by the memory size, the
-- map type and the ROM map, against which `UpdateMmuArray` and the operations are proved.
use cutiecoco.Base.{
  ℕ, zero, suc, ◌+◌, ◌-◌, ◌*◌, ◌%◌, ◌≤◌, ◌<◌, ◌≡◌, ◌⊎◌, Bool, true, false, ◌&&◌, ◌||◌, arith, ltb,
  leb, ◌==◌, if◌then◌else◌, Bool-cases, inl, inr,
}
use native.Mathlib.Nat.{mod-eq_of_lt}
use cutiecoco.Base.Maps.{update}
use cutiecoco.Mmu.{
  Mmu, Page, ram, rom, null, update_mmu_array, update4, vector_mask, vector_maska, ram_mask,
}

-- The page that the CPU should see at an entry of the table.
pub data View : Type 0 where
  in_ram : ℕ → View
  in_rom : ℕ → View
  in_pak : ℕ → View
  nowhere : View

-- The four entries below `VectorMask` show the ROMs unless the map type is all RAM: two of the
-- internal ROM and two of the cartridge, four of the internal ROM, or four of the cartridge. Every
-- other entry, and every entry of the all-RAM map, shows the RAM page of its number, modulo the
-- pages that there are.
unfoldable pub rom_view : ℕ → ℕ → View
rom_view rom_map i =
    if rom_map == 2
    then in_rom (0x2000 * i)
    else if rom_map == 3
    then in_pak ((i * 0x2000 + 0x4000) % 0x8000)
    else if ltb i 2
    then in_rom (0x2000 * i)
    else in_pak (0x2000 * (i - 2))

unfoldable pub view : Mmu → ℕ → View
unfolding rom_view
view m r =
    let v = vector_mask m.current_ram_config in
    if (m.map_type == 0) && (leb (v - 3) r && leb r v)
    then rom_view m.rom_map (r - (v - 3))
    else in_ram (r % (ram_mask m.current_ram_config + 1) * 0x2000)

-- What the reads make of an entry of the two tables: the pointer where the offset is 1, the
-- cartridge at the offset otherwise.
unfoldable pub seen : Page → ℕ → View
seen (ram base) offset = if offset == 1 then in_ram base else in_pak offset
seen (rom base) offset = if offset == 1 then in_rom base else in_pak offset
seen null offset = if offset == 1 then nowhere else in_pak offset

abbrev pub IsConsistent : Mmu → Type 0
IsConsistent m = (r : ℕ) → seen (m.mem_pages r) (m.mem_page_offsets r) ≡ view m r

-- The entries outside the four that change.
abbrev pub IsBackdrop : Mmu → Type 0
IsBackdrop m =
    let v = vector_mask m.current_ram_config in
    (r : ℕ)
    → (r < v - 3) ⊎ (v < r)
    → seen (m.mem_pages r) (m.mem_page_offsets r)
      ≡ in_ram (r % (ram_mask m.current_ram_config + 1) * 0x2000)

pub vector_mask_bounds :
    (c : ℕ)
    → c < 4
    → (3 ≤ vector_mask c) × (vector_mask c ≤ ram_mask c) × (vector_maska c + 3 ≡ vector_mask c)
vector_mask_bounds zero h = omega arith
vector_mask_bounds (suc zero) h = omega arith
vector_mask_bounds (suc (suc zero)) h = omega arith
vector_mask_bounds (suc (suc (suc zero))) h = omega arith
vector_mask_bounds (suc (suc (suc (suc c)))) h = absurd (omega arith)

-- Four entries written over a table that shows RAM outside them.
module _ (pages : ℕ → Page) (offsets : ℕ → ℕ) (v mask r : ℕ) (low : 3 ≤ v) (high : v ≤ mask)
    (back : (r < v - 3) ⊎ (v < r)
      → seen (pages r) (offsets r) ≡ in_ram (r % (mask + 1) * 0x2000)) where
  abbrev Shown : (a b c d : Page) (oa ob oc od : ℕ) → View → Type 0
  Shown a b c d oa ob oc od w =
      seen (update4 pages v a b c d r) (update4 offsets v oa ob oc od r) ≡ w

  abbrev in_window : Bool
  in_window = leb (v - 3) r && leb r v

  abbrev windowed : (ℕ → View) → View
  windowed w = if in_window then w (r - (v - 3)) else in_ram (r % (mask + 1) * 0x2000)

  all_ram_view :
      Shown
        (ram (0x2000 * (v - 3)))
        (ram (0x2000 * (v - 2)))
        (ram (0x2000 * (v - 1)))
        (ram (0x2000 * v))
        1
        1
        1
        1
        (in_ram (r % (mask + 1) * 0x2000))
  unfolding seen update
  all_ram_view = ground (arith, mod-eq_of_lt {n = r} {m = mask + 1})

  split_rom_view :
      (k : ℕ) → k < 2 → Shown (rom 0) (rom 0x2000) null null 1 1 0 0x2000 (windowed (rom_view k))
  unfolding seen update rom_view
  split_rom_view k h = ground arith

  internal_rom_view :
      (k : ℕ)
      → (k == 2) ≡ true
      → Shown (rom 0) (rom 0x2000) (rom 0x4000) (rom 0x6000) 1 1 1 1 (windowed (rom_view k))
  unfolding seen update rom_view
  internal_rom_view k h = ground arith

  external_rom_view :
      (k : ℕ)
      → (k == 3) ≡ true
      → Shown null null null null 0x4000 0x6000 0 0x2000 (windowed (rom_view k))
  unfolding seen update rom_view
  external_rom_view k h = ground arith

-- `UpdateMmuArray` makes the table what it should be, whatever its four entries were.
pub update_mmu_array-IsConsistent :
    (m : Mmu)
    → m.current_ram_config < 4
    → m.rom_map < 4
    → IsBackdrop m
    → IsConsistent (update_mmu_array m)
unfolding update_mmu_array view
update_mmu_array-IsConsistent m c q back r = elim (Bool-cases (m.map_type == 0)) [
  | inr off ↦ rw (off, off) (all_ram_view pages offsets v mask r low high (back r))
  | inl on ↦ elim (Bool-cases ((m.rom_map == 0) || (m.rom_map == 1))) [
    | inl split ↦
        rw (on, split, on)
          (split_rom_view pages offsets v mask r low high (back r) m.rom_map (ground arith))
    | inr not_split ↦ elim (Bool-cases (m.rom_map == 2)) [
      | inl two ↦
          rw (on, not_split, two, on)
            (internal_rom_view pages offsets v mask r low high (back r) m.rom_map two)
      | inr not_two ↦
          rw (on, not_split, not_two, three not_split not_two, on)
            (external_rom_view pages offsets v mask r low high (back r) m.rom_map
              (three not_split not_two))
    ]
  ]
]
  where
    open m use {mem_pages as pages, mem_page_offsets as offsets}

    v : ℕ
    v = vector_mask m.current_ram_config

    mask : ℕ
    mask = ram_mask m.current_ram_config

    low : 3 ≤ v
    low = (vector_mask_bounds m.current_ram_config c).0

    high : v ≤ mask
    high = (vector_mask_bounds m.current_ram_config c).1

    three :
        ((m.rom_map == 0) || (m.rom_map == 1)) ≡ false
        → (m.rom_map == 2) ≡ false
        → (m.rom_map == 3) ≡ true
    three a b = ground arith
