-- ===== src/Mmu/Access.antt =====
-- Reads and writes through the page table.
use cutiecoco.Base.{
  ℕ, zero, suc, ◌+◌, ◌-◌, ◌*◌, ◌%◌, ◌≤◌, ◌<◌, ◌≡◌, ◌≢◌, refl, ◌∙◌, ap, sym, subst, Bool, true,
  false, ◌&&◌, some, arith, ltb, leb, ◌==◌, if◌then◌else◌, Bool-cases, lt→ltb, ltb→lt, inl, inr,
}
use native.Mathlib.Nat.{mod-lt}
use cutiecoco.Base.Bits.{u16}
use cutiecoco.Base.Maps.{update, update_lem}
use cutiecoco.Mmu.{
  Mmu, Page, ram, rom, null, mapped_read, mapped_write, current_register, is_writable, load, store,
  vector_mask, ram_mask, mem_config, mem_check_write,
}
use cutiecoco.Mmu.Pages.{
  View, in_ram, in_rom, in_pak, nowhere, view, rom_view, seen, vector_mask_bounds,
}
use cutiecoco.Mmu.Validity.{IsValid, mapped_write-IsValid}

-- What the CPU sees at an address, by the description of the page table.
unfoldable pub address_view : Mmu → ℕ → View
address_view m address = view m (current_register m address)

-- The byte that a view shows at an offset.
abbrev pub view_read : Mmu → (ℕ → ℕ) → View → ℕ → ℕ
view_read m pak (in_ram base) offset = m.memory (base + offset)
view_read m pak (in_rom base) offset = m.internal_rom (base + offset)
view_read m pak (in_pak base) offset = pak (u16 (base + offset))
view_read m pak nowhere offset = 0xff

-- A view lies within its buffer.
abbrev InBounds : Mmu → View → Type 0
InBounds m (in_ram base) = base + 0x2000 ≤ m.ram_size
InBounds m (in_rom base) = base + 0x2000 ≤ 0x8000
InBounds m (in_pak base) = base ≢ 1
InBounds m nowhere = ⊥

memory_holds : (c : ℕ) → c < 4 → (ram_mask c + 1) * 0x2000 ≡ mem_config c
memory_holds zero h = omega arith
memory_holds (suc zero) h = omega arith
memory_holds (suc (suc zero)) h = omega arith
memory_holds (suc (suc (suc zero))) h = omega arith
memory_holds (suc (suc (suc (suc c)))) h = absurd (omega arith)

rom_view-InBounds : (m : Mmu) (k i : ℕ) → i ≤ 3 → InBounds m (rom_view k i)
unfolding rom_view
rom_view-InBounds m k i h = elim (Bool-cases (k == 2)) [
  | inl two ↦ rw two (omega arith)
  | inr not_two ↦ elim (Bool-cases (k == 3)) [
    | inl three ↦ rw (not_two, three) (omega arith)
    | inr not_three ↦ elim (Bool-cases (ltb i 2)) [
      | inl low ↦ rw (not_two, not_three, low) (omega (arith, ltb→lt i 2 low))
      | inr high ↦ rw (not_two, not_three, high) (omega arith)
    ]
  ]
]

view-InBounds : (m : Mmu) → IsValid m → (r : ℕ) → InBounds m (view m r)
unfolding view
view-InBounds m h r = elim (Bool-cases in_window) [
  | inl inside ↦ rw inside (rom_view-InBounds m m.rom_map (r - (v - 3)) (ground arith))
  | inr outside ↦ rw outside (
      omega (
        arith,
        h.size_exact,
        memory_holds m.current_ram_config h.config_in,
        mod-lt r {m = mask + 1} (omega arith),
      ))
]
  where
    v : ℕ
    v = vector_mask m.current_ram_config

    mask : ℕ
    mask = ram_mask m.current_ram_config

    in_window : Bool
    in_window = (m.map_type == 0) && (leb (v - 3) r && leb r v)

-- The two tables read as the view that they show.
load-seen :
    (m : Mmu) (pak : ℕ → ℕ) (page : Page) (o offset : ℕ)
    → offset < 0x2000
    → InBounds m (seen page o)
    → (if o == 1 then load m page offset else some (pak (u16 (o + offset))))
      ≡ some (view_read m pak (seen page o) offset)
unfolding load seen
load-seen m pak (ram base) o offset lt h = elim (Bool-cases (o == 1)) [
  | inl one ↦ rw (one, lt→ltb (base + offset) m.ram_size (omega (arith, in_range one)))
  | inr paged ↦ rw paged
]
  where
    in_range : (o == 1) ≡ true → base + 0x2000 ≤ m.ram_size
    in_range one = rw one at h
load-seen m pak (rom base) o offset lt h = elim (Bool-cases (o == 1)) [
  | inl one ↦ rw (one, lt→ltb (base + offset) 0x8000 (omega (arith, in_range one)))
  | inr paged ↦ rw paged
]
  where
    in_range : (o == 1) ≡ true → base + 0x2000 ≤ 0x8000
    in_range one = rw one at h
load-seen m pak null o offset lt h = elim (Bool-cases (o == 1)) [
  | inl one ↦ absurd (rw one at h)
  | inr paged ↦ rw paged
]

-- A read never leaves the buffers: it gives the byte of RAM, of the internal ROM or of the
-- cartridge that the map type, the ROM map and the current page register call for.
pub mapped_read_lem :
    (m : Mmu) (pak : ℕ → ℕ) (address : ℕ)
    → IsValid m
    → mapped_read m pak address ≡ some (view_read m pak (address_view m address) (address % 0x2000))
unfolding mapped_read address_view
mapped_read_lem m pak address h =
    let r = current_register m address in
    let shown = h.consistent r in
    load-seen m pak (m.mem_pages r) (m.mem_page_offsets r) (address % 0x2000) (omega arith)
      (subst (InBounds m) (sym shown) (view-InBounds m h r))
    ∙ ap (λ w. some (view_read m pak w (address % 0x2000))) shown

-- Two views at two offsets name one byte of RAM.
abbrev pub is_same_byte : View → ℕ → View → ℕ → Bool
is_same_byte (in_ram x) i (in_ram y) j = y + j == x + i
is_same_byte (in_ram x) i _ j = false
is_same_byte _ i _ j = false

abbrev pub with_byte : Mmu → ℕ → ℕ → Mmu
with_byte m index byte = record m { memory = update m.memory index byte }

view_read-with_byte :
    (m : Mmu) (pak : ℕ → ℕ) (x i byte : ℕ) (w : View) (j : ℕ)
    → view_read (with_byte m (x + i) byte) pak w j
      ≡ (if is_same_byte (in_ram x) i w j then byte else view_read m pak w j)
view_read-with_byte m pak x i byte (in_ram y) j = update_lem m.memory (x + i) (y + j) byte
view_read-with_byte m pak x i byte (in_rom y) j = refl
view_read-with_byte m pak x i byte (in_pak y) j = refl
view_read-with_byte m pak x i byte nowhere j = refl

seen-in_ram : (page : Page) (o base : ℕ) → seen page o ≡ in_ram base → page ≡ ram base
unfolding seen
seen-in_ram (ram b) o base e = ground arith
seen-in_ram (rom b) o base e = absurd (ground arith)
seen-in_ram null o base e = absurd (ground arith)

some-if : (b : Bool) (x y : ℕ) → some (if b then x else y) ≡ (if b then some x else some y)
some-if true x y = refl
some-if false x y = refl

-- A page that takes writes shows RAM.
pub writable_view :
    (m : Mmu) (address : ℕ)
    → IsValid m
    → is_writable m address ≡ true
    → address_view m address
      ≡ in_ram (current_register m address % (ram_mask m.current_ram_config + 1) * 0x2000)
unfolding address_view view
writable_view m address h e = ground (arith, vector_mask_bounds m.current_ram_config h.config_in)

pub mapped_write_writable :
    (m : Mmu) (byte address base : ℕ)
    → IsValid m
    → is_writable m address ≡ true
    → address_view m address ≡ in_ram base
    → mapped_write m byte address ≡ some (with_byte m (base + address % 0x2000) byte)
unfolding mapped_write store address_view
mapped_write_writable m byte address base h e shown = rw (e, pointer) (rw inside refl)
  where
    r : ℕ
    r = current_register m address

    pointer : m.mem_pages r ≡ ram base
    pointer = seen-in_ram (m.mem_pages r) (m.mem_page_offsets r) base (h.consistent r ∙ shown)

    in_range : base + 0x2000 ≤ m.ram_size
    in_range = subst (InBounds m) shown (view-InBounds m h r)

    inside : ltb (base + address % 0x2000) m.ram_size ≡ true
    inside = lt→ltb _ _ (omega (arith, in_range))

-- A write never leaves the buffers. Where the page takes writes it changes the byte of RAM at
-- that address and at every address that shows the same byte, and no other; where it does not,
-- as with ROM and cartridge, it changes nothing.
pub mapped_write_lem :
    (m : Mmu) (byte address : ℕ)
    → IsValid m
    → (n : Mmu) × (mapped_write m byte address ≡ some n)
      × ((pak : ℕ → ℕ) (other : ℕ)
          → mapped_read n pak other ≡ (
              if is_writable m address
                && is_same_byte
                    (address_view m address)
                    (address % 0x2000)
                    (address_view m other)
                    (other % 0x2000)
              then some byte
              else mapped_read m pak other))
mapped_write_lem m byte address h = elim (Bool-cases (is_writable m address)) [
  | inr blocked ↦ (m, unfold mapped_write in rw blocked, λ pak other. rw blocked)
  | inl writes ↦ (
    with_byte m (base + offset) byte,
    done writes,
    λ pak other.
        mapped_read_lem (with_byte m (base + offset) byte) pak other (valid writes)
        ∙ ap (λ w. some (view_read (with_byte m (base + offset) byte) pak w (other % 0x2000)))
            (same_view other)
        ∙ ap some
            (view_read-with_byte m pak base offset byte (address_view m other) (other % 0x2000))
        ∙ rw (writes, writable_view m address h writes, mapped_read_lem m pak other h)
            (some-if _ _ _),
  )
]
  where
    offset : ℕ
    offset = address % 0x2000

    base : ℕ
    base = current_register m address % (ram_mask m.current_ram_config + 1) * 0x2000

    done :
        is_writable m address ≡ true
        → mapped_write m byte address ≡ some (with_byte m (base + offset) byte)
    done writes =
        mapped_write_writable m byte address base h writes (writable_view m address h writes)

    valid : is_writable m address ≡ true → IsValid (with_byte m (base + offset) byte)
    valid writes = mapped_write-IsValid byte address m _ h (done writes)

    same_view :
        (other : ℕ) → address_view (with_byte m (base + offset) byte) other ≡ address_view m other
    same_view other = unfold address_view view in refl

-- `MemCheckWrite` answers whether a write below $FE00 reaches RAM: then a byte that is written is
-- read back, and else no write changes anything.
pub mem_check_write_lem :
    (m : Mmu) (byte address : ℕ)
    → IsValid m
    → address < 0xfe00
    → (n : Mmu) × (mapped_write m byte address ≡ some n)
      × ((pak : ℕ → ℕ)
          → mapped_read n pak address
            ≡ (if mem_check_write m address then some byte else mapped_read m pak address))
mem_check_write_lem m byte address h lt =
    let (n, done, reads) = mapped_write_lem m byte address h in
    (
      n,
      done,
      λ pak. reads pak address ∙ ap (λ t. if t then some byte else mapped_read m pak address) same,
    )
  where
    same :
        is_writable m address
          && is_same_byte
              (address_view m address)
              (address % 0x2000)
              (address_view m address)
              (address % 0x2000)
        ≡ mem_check_write m address
    same =
        unfold mem_check_write in
        elim (Bool-cases (is_writable m address)) [
          | inl writes ↦
              rw (writes, writable_view m address h writes, lt→ltb address 0xfe00 lt) (ground arith)
          | inr blocked ↦ rw (blocked, lt→ltb address 0xfe00 lt)
        ]

-- The page of the RAM vectors lies within the RAM.
pub vector_page_in_ram :
    (m : Mmu) (address : ℕ)
    → IsValid m
    → ltb (0x2000 * vector_mask m.current_ram_config + address % 0x2000) m.ram_size ≡ true
vector_page_in_ram m address h = lt→ltb _ _ (
    omega (
      arith,
      h.size_exact,
      memory_holds m.current_ram_config h.config_in,
      vector_mask_bounds m.current_ram_config h.config_in,
    ))

-- The byte of RAM that a writable address names.
abbrev pub ram_index : Mmu → ℕ → ℕ
ram_index m address =
    current_register m address % (ram_mask m.current_ram_config + 1) * 0x2000 + address % 0x2000

pub ram_write :
    (m : Mmu) (byte address : ℕ)
    → IsValid m
    → is_writable m address ≡ true
    → mapped_write m byte address ≡ some (with_byte m (ram_index m address) byte)
ram_write m byte address h w =
    mapped_write_writable m byte address
      (current_register m address % (ram_mask m.current_ram_config + 1) * 0x2000) h w
      (writable_view m address h w)

pub ram_read :
    (m : Mmu) (pak : ℕ → ℕ) (address : ℕ)
    → IsValid m
    → is_writable m address ≡ true
    → mapped_read m pak address ≡ some (m.memory (ram_index m address))
ram_read m pak address h w =
    mapped_read_lem m pak address h
    ∙ ap (λ v. some (view_read m pak v (address % 0x2000))) (writable_view m address h w)
