-- ===== src/Mmu.antt =====
-- emulation/tcc1014mmu.cpp: the memory management unit of the GIME, with the emulated RAM, the
-- internal ROM and the table of the 1024 pages of 8 KB. `MemRead8` and its kin, which also reach
-- the ports, are in Memory.antt. A table that the source fills by a loop over all its indices is
-- the function that the loop computes. `x & mask` with a mask of low ones is `x % (mask + 1)`
-- (Base.BitLaws), and a `|` of disjoint fields is a sum.
pub mod Pages
pub mod Validity
pub mod Access
pub mod Reach
pub mod Settings
mod Tests
use Prim.Native.Nat.{bit_or}
use cutiecoco.Base.{
  ℕ, ◌+◌, ◌-◌, ◌*◌, ◌/◌, ◌%◌, ◌^◌, Bool, true, false, not, ◌||◌, Option, some, none, List, [], ◌∷◌,
  ltb, leb, ◌==◌, if◌then◌else◌, get_or, length,
}
use cutiecoco.Base.Bits.{bit, u16}
use cutiecoco.Base.Maps.{update}
use cutiecoco.Calls.{Call, set_vid_mask, set_video_bank}

-- The tables over the four memory sizes: 128K, 512K, 2048K and 8192K.
abbrev pub mem_config : ℕ → ℕ
mem_config c = get_or (0x20000 ∷ 0x80000 ∷ 0x200000 ∷ 0x800000 ∷ []) c 0

abbrev pub ram_mask : ℕ → ℕ
ram_mask c = get_or (15 ∷ 63 ∷ 255 ∷ 1023 ∷ []) c 0

abbrev pub state_switch : ℕ → ℕ
state_switch c = get_or (8 ∷ 56 ∷ 56 ∷ 56 ∷ []) c 0

abbrev pub vector_mask : ℕ → ℕ
vector_mask c = get_or (15 ∷ 63 ∷ 63 ∷ 63 ∷ []) c 0

abbrev pub vector_maska : ℕ → ℕ
vector_maska c = get_or (12 ∷ 60 ∷ 60 ∷ 60 ∷ []) c 0

abbrev pub vid_mask : ℕ → ℕ
vid_mask c = get_or (0x1ffff ∷ 0x7ffff ∷ 0x1fffff ∷ 0x7fffff ∷ []) c 0

-- A pointer of `MemPages`: into `memory`, into `InternalRomBuffer`, or null.
pub data Page : Type 0 where
  ram : ℕ → Page
  rom : ℕ → Page
  null : Page

pub record Mmu : Type 0 where
  pub memory : ℕ → ℕ
  pub internal_rom : ℕ → ℕ
  pub mem_pages : ℕ → Page
  pub mem_page_offsets : ℕ → ℕ
  pub registers : ℕ → ℕ → ℕ
  pub mmu_task : ℕ
  pub mmu_enabled : ℕ
  pub ram_vectors : Bool
  pub mmu_state : ℕ
  pub rom_map : ℕ
  pub map_type : ℕ
  pub current_ram_config : ℕ
  pub mmu_prefix : ℕ
  pub ram_size : ℕ

-- Four entries of a table, from `v - 3` to `v`.
abbrev pub update4 {ℓ} : {A : Type ℓ} → (ℕ → A) → ℕ → A → A → A → A → ℕ → A
update4 f v a b c d = update (update (update (update f (v - 3) a) (v - 2) b) (v - 1) c) v d

unfoldable pub update_mmu_array : Mmu → Mmu
update_mmu_array m =
    let v = vector_mask m.current_ram_config in
    if not (m.map_type == 0)
    then record m {
      mem_pages =
          update4 m.mem_pages v (ram (0x2000 * (v - 3))) (ram (0x2000 * (v - 2)))
            (ram (0x2000 * (v - 1))) (ram (0x2000 * v));
      mem_page_offsets = update4 m.mem_page_offsets v 1 1 1 1;
    }
    -- 16K internal, 16K external
    else if (m.rom_map == 0) || (m.rom_map == 1)
    then record m {
      mem_pages = update4 m.mem_pages v (rom 0) (rom 0x2000) null null;
      mem_page_offsets = update4 m.mem_page_offsets v 1 1 0 0x2000;
    }
    -- 32K internal
    else if m.rom_map == 2
    then record m {
      mem_pages = update4 m.mem_pages v (rom 0) (rom 0x2000) (rom 0x4000) (rom 0x6000);
      mem_page_offsets = update4 m.mem_page_offsets v 1 1 1 1;
    }
    -- 32K external
    else if m.rom_map == 3
    then record m {
      mem_pages = update4 m.mem_pages v null null null null;
      mem_page_offsets = update4 m.mem_page_offsets v 0x4000 0x6000 0 0x2000;
    }
    else m

pub set_rom_map : ℕ → Mmu → Mmu
set_rom_map byte m = update_mmu_array (record m { rom_map = byte % 4 })

unfoldable pub set_map_type : ℕ → Mmu → Mmu
set_map_type type m = update_mmu_array (record m { map_type = type })

pub set_vectors : ℕ → Mmu → Mmu
set_vectors byte m = record m { ram_vectors = not (byte == 0) }

pub set_mmu_register : ℕ → ℕ → Mmu → Mmu
set_mmu_register register byte m =
    let bank = register % 8 in
    let task = if bit register 3 then 1 else 0 in
    let value = m.mmu_prefix + byte % (ram_mask m.current_ram_config + 1) in
    record m { registers = update m.registers task (update (m.registers task) bank value) }

-- `(!MmuEnabled)<<1 | MmuTask`.
abbrev pub composite_state : ℕ → ℕ → ℕ
composite_state enabled task = bit_or (if enabled == 0 then 2 else 0) task

pub set_mmu_task : ℕ → Mmu → Mmu
set_mmu_task task m = record m { mmu_task = task; mmu_state = composite_state m.mmu_enabled task }

pub set_mmu_enabled : ℕ → Mmu → Mmu
set_mmu_enabled using_mmu m = record m {
  mmu_enabled = using_mmu;
  mmu_state = composite_state using_mmu m.mmu_task;
}

pub set_mmu_prefix : ℕ → Mmu → Mmu
set_mmu_prefix byte m = record m { mmu_prefix = byte % 4 * 256 }

unfoldable pub set_disto_ram_bank : ℕ → Mmu → Mmu × List Call
set_disto_ram_bank byte m =
    if m.current_ram_config == 0
    then (m, [])
    else if m.current_ram_config == 1
    then (m, [])
    else if m.current_ram_config == 2
    then (set_mmu_prefix 0 m, set_video_bank (byte % 4) ∷ [])
    else if m.current_ram_config == 3
    then (set_mmu_prefix (byte / 16 % 4) m, set_video_bank (byte % 16) ∷ [])
    else (m, [])

unfoldable pub mmu_reset : Mmu → Mmu
unfolding set_rom_map set_map_type
mmu_reset m =
    let c = m.current_ram_config in
    set_map_type 0 (
      set_rom_map 0 (record m {
        mmu_task = 0;
        mmu_enabled = 0;
        ram_vectors = false;
        mmu_state = 0;
        rom_map = 0;
        map_type = 0;
        mmu_prefix = 0;
        registers = λ task bank. bank + state_switch c;
        mem_pages = λ i. ram (i % (ram_mask c + 1) * 0x2000);
        mem_page_offsets = λ i. 1;
      }))

-- `LoadRom`: the bytes of the ROM file, `none` where it cannot be opened. A file that does not
-- fill the buffer leaves it full of 0xff.
abbrev pub load_rom : Option (List ℕ) → ℕ → ℕ
load_rom none i = 0xff
load_rom (some bytes) i = if ltb (length bytes) 0x8000 then 0xff else get_or bytes i 0xff

-- `MmuInit` where both allocations succeed. (Where `malloc` fails it returns a null pointer.)
unfoldable pub mmu_init : ℕ → Option (List ℕ) → Mmu → Mmu × List Call
unfolding mmu_reset
mmu_init config file m = (
  mmu_reset (record m {
    ram_size = mem_config config;
    current_ram_config = config;
    memory = λ i. if bit i 0 then 0 else 0xff;
    internal_rom = load_rom file;
  }),
  set_vid_mask (vid_mask config) ∷ [],
)

-- A read through a pointer of `MemPages`; `none` is a read outside the buffers, which C++ leaves
-- undefined.
unfoldable pub load : Mmu → Page → ℕ → Option ℕ
load m (ram base) offset =
    if ltb (base + offset) m.ram_size then some (m.memory (base + offset)) else none
load m (rom base) offset =
    if ltb (base + offset) 0x8000 then some (m.internal_rom (base + offset)) else none
load m null offset = none

unfoldable pub store : Mmu → Page → ℕ → ℕ → Option Mmu
store m (ram base) offset byte =
    if ltb (base + offset) m.ram_size
    then some (record m { memory = update m.memory (base + offset) byte })
    else none
store m (rom base) offset byte =
    if ltb (base + offset) 0x8000
    then some (record m { internal_rom = update m.internal_rom (base + offset) byte })
    else none
store m null offset byte = none

-- `MmuRegisters[MmuState][address >> 13]`.
abbrev pub current_register : Mmu → ℕ → ℕ
current_register m address = m.registers m.mmu_state (address / 0x2000)

-- The read of a mapped page, from RAM, ROM or the cartridge (`PackMem8Read`, here `pak`).
unfoldable pub mapped_read : Mmu → (ℕ → ℕ) → ℕ → Option ℕ
mapped_read m pak address =
    let r = current_register m address in
    if m.mem_page_offsets r == 1
    then load m (m.mem_pages r) (address % 0x2000)
    else some (pak (u16 (m.mem_page_offsets r + address % 0x2000)))

-- Whether the page at an address takes writes.
abbrev pub is_writable : Mmu → ℕ → Bool
is_writable m address =
    let r = current_register m address in
    not (m.map_type == 0)
    || (ltb r (vector_maska m.current_ram_config) || ltb (vector_mask m.current_ram_config) r)

unfoldable pub mapped_write : Mmu → ℕ → ℕ → Option Mmu
mapped_write m byte address =
    if is_writable m address
    then store m (m.mem_pages (current_register m address)) (address % 0x2000) byte
    else some m

-- `memory[(0x2000 * VectorMask) | (address & 0x1FFF)]`, for $FE00 to $FEFF with RAM vectors.
abbrev pub vector_page : Mmu → Page
vector_page m = ram (0x2000 * vector_mask m.current_ram_config)

-- `MemCheckWrite`.
pub mem_check_write : Mmu → ℕ → Bool
mem_check_write m address = if ltb address 0xfe00 then is_writable m address else false

-- `GetMem` and `SetMem`, for the debugger and the quick loader.
pub get_mem : Mmu → ℕ → ℕ
get_mem m address = if ltb address m.ram_size then m.memory address else 0xff

pub set_mem : Mmu → ℕ → ℕ → Mmu
set_mem m address value =
    if ltb address m.ram_size
    then record m { memory = update m.memory address (value % 256) }
    else m
