-- ===== src/Mmu/Validity.antt =====
-- The representation invariant of the MMU, and that every operation keeps it.
use cutiecoco.Base.{
  ℕ, zero, suc, ◌+◌, ◌/◌, ◌%◌, ◌&&◌, ◌≤◌, ◌<◌, ◌≡◌, refl, ◌∙◌, ap, sym, subst, Option, some,
  some_inj, List, arith, ltb, ◌==◌, if◌then◌else◌, some_inj, Bool-cases, inl, inr,
}
use native.Mathlib.Nat.{mod-le}
use cutiecoco.Base.Bits.{bit}
use cutiecoco.Base.Maps.{update, update_row}
use cutiecoco.Mmu.{
  Mmu, Page, ram, rom, null, is_writable, current_register, update_mmu_array, mem_config,
  set_rom_map, set_map_type, set_vectors, set_mmu_register, set_mmu_task, set_mmu_enabled,
  set_mmu_prefix, set_disto_ram_bank, mmu_reset, mmu_init, mapped_write, set_mem, load_rom,
  composite_state, state_switch, ram_mask, store,
}
use cutiecoco.Mmu.Pages.{IsConsistent, IsBackdrop, view, seen, update_mmu_array-IsConsistent}

pub record IsValid (m : Mmu) : Type 0 where
  pub config_in : m.current_ram_config < 4
  pub size_exact : m.ram_size ≡ mem_config m.current_ram_config
  pub rom_map_in : m.rom_map < 4
  pub task_in : m.mmu_task < 2
  pub state_in : m.mmu_state < 4
  pub prefix_in : m.mmu_prefix ≤ 768
  pub registers_in : (task bank : ℕ) → bank < 8 → m.registers task bank < 1024
  pub consistent : IsConsistent m

-- Recomputing the page table changes nothing else.
pub update_mmu_array_frame :
    (m : Mmu)
    → let n = update_mmu_array m in
      (n.current_ram_config ≡ m.current_ram_config)
      × (n.ram_size ≡ m.ram_size)
      × (n.rom_map ≡ m.rom_map)
      × (n.mmu_task ≡ m.mmu_task)
      × (n.mmu_state ≡ m.mmu_state)
      × (n.mmu_prefix ≡ m.mmu_prefix)
      × (n.registers ≡ m.registers)
      × (n.memory ≡ m.memory)
      × (n.map_type ≡ m.map_type)
      × (n.internal_rom ≡ m.internal_rom)
unfolding update_mmu_array
update_mmu_array_frame m = ground arith

IsConsistent→IsBackdrop : (m : Mmu) → IsConsistent m → IsBackdrop m
unfolding view
IsConsistent→IsBackdrop m h r out = h r ∙ ground arith

-- A state whose table is right outside the four entries is valid once it is recomputed.
record IsAlmost (m : Mmu) : Type 0 where
  config_in : m.current_ram_config < 4
  size_exact : m.ram_size ≡ mem_config m.current_ram_config
  rom_map_in : m.rom_map < 4
  task_in : m.mmu_task < 2
  state_in : m.mmu_state < 4
  prefix_in : m.mmu_prefix ≤ 768
  registers_in : (task bank : ℕ) → bank < 8 → m.registers task bank < 1024
  backdrop : IsBackdrop m

update_mmu_array-IsValid : (m : Mmu) → IsAlmost m → IsValid (update_mmu_array m)
update_mmu_array-IsValid m h =
    let (config, size, rom_map, task, state, prefix, registers, _, _, _) =
      update_mmu_array_frame m in
    record {
      config_in = rw config h.config_in;
      size_exact = size ∙ h.size_exact ∙ ap mem_config (sym config);
      rom_map_in = rw rom_map h.rom_map_in;
      task_in = rw task h.task_in;
      state_in = rw state h.state_in;
      prefix_in = rw prefix h.prefix_in;
      registers_in = λ t b lt. rw registers (h.registers_in t b lt);
      consistent = update_mmu_array-IsConsistent m h.config_in h.rom_map_in h.backdrop;
    }

pub set_rom_map-IsValid : (byte : ℕ) (m : Mmu) → IsValid m → IsValid (set_rom_map byte m)
unfolding set_rom_map
set_rom_map-IsValid byte m h =
    update_mmu_array-IsValid (record m { rom_map = byte % 4 })
      (record {
        config_in = h.config_in;
        size_exact = h.size_exact;
        rom_map_in = omega arith;
        task_in = h.task_in;
        state_in = h.state_in;
        prefix_in = h.prefix_in;
        registers_in = h.registers_in;
        backdrop = IsConsistent→IsBackdrop m h.consistent;
      })

pub set_map_type-IsValid : (type : ℕ) (m : Mmu) → IsValid m → IsValid (set_map_type type m)
unfolding set_map_type
set_map_type-IsValid type m h =
    update_mmu_array-IsValid (record m { map_type = type })
      (record {
        config_in = h.config_in;
        size_exact = h.size_exact;
        rom_map_in = h.rom_map_in;
        task_in = h.task_in;
        state_in = h.state_in;
        prefix_in = h.prefix_in;
        registers_in = h.registers_in;
        backdrop = IsConsistent→IsBackdrop m h.consistent;
      })

-- An operation that leaves the map and the table alone, and keeps the small fields in range.
module _ (m n : Mmu) (h : IsValid m)
    (same : (n.current_ram_config ≡ m.current_ram_config)
      × (n.ram_size ≡ m.ram_size)
      × (n.rom_map ≡ m.rom_map)
      × (n.map_type ≡ m.map_type)
      × (n.mem_pages ≡ m.mem_pages)
      × (n.mem_page_offsets ≡ m.mem_page_offsets)) where
  same_view : (r : ℕ) → view m r ≡ view n r
  unfolding view
  same_view r = rw (same.0, same.2, same.3)

  IsValid-of_same :
      n.mmu_task < 2
      → n.mmu_state < 4
      → n.mmu_prefix ≤ 768
      → ((task bank : ℕ) → bank < 8 → n.registers task bank < 1024)
      → IsValid n
  unfolding view
  IsValid-of_same task state prefix registers = record {
    config_in = rw same.0 h.config_in;
    size_exact = same.1 ∙ h.size_exact ∙ ap mem_config (sym same.0);
    rom_map_in = rw same.2 h.rom_map_in;
    task_in = task;
    state_in = state;
    prefix_in = prefix;
    registers_in = registers;
    consistent = λ r. rw (same.4, same.5) (h.consistent r ∙ same_view r);
  }

composite_state-lt : (enabled task : ℕ) → task < 2 → composite_state enabled task < 4
composite_state-lt enabled zero h = elim (Bool-cases (enabled == 0)) [
  | inl e ↦ rw e (omega arith)
  | inr e ↦ rw e (omega arith)
]
composite_state-lt enabled (suc zero) h = elim (Bool-cases (enabled == 0)) [
  | inl e ↦ rw e (omega arith)
  | inr e ↦ rw e (omega arith)
]
composite_state-lt enabled (suc (suc n)) h = absurd (omega arith)

pub set_mmu_task-IsValid :
    (task : ℕ) (m : Mmu) → task < 2 → IsValid m → IsValid (set_mmu_task task m)
unfolding set_mmu_task
set_mmu_task-IsValid task m lt h =
    IsValid-of_same m (set_mmu_task task m) h (refl, refl, refl, refl, refl, refl) lt
      (composite_state-lt m.mmu_enabled task lt) h.prefix_in h.registers_in

pub set_mmu_enabled-IsValid : (on : ℕ) (m : Mmu) → IsValid m → IsValid (set_mmu_enabled on m)
unfolding set_mmu_enabled
set_mmu_enabled-IsValid on m h =
    IsValid-of_same m (set_mmu_enabled on m) h (refl, refl, refl, refl, refl, refl) h.task_in
      (composite_state-lt on m.mmu_task h.task_in) h.prefix_in h.registers_in

pub set_vectors-IsValid : (byte : ℕ) (m : Mmu) → IsValid m → IsValid (set_vectors byte m)
unfolding set_vectors
set_vectors-IsValid byte m h =
    IsValid-of_same m (set_vectors byte m) h (refl, refl, refl, refl, refl, refl) h.task_in
      h.state_in h.prefix_in h.registers_in

pub set_mmu_prefix-IsValid : (byte : ℕ) (m : Mmu) → IsValid m → IsValid (set_mmu_prefix byte m)
unfolding set_mmu_prefix
set_mmu_prefix-IsValid byte m h =
    IsValid-of_same m (set_mmu_prefix byte m) h (refl, refl, refl, refl, refl, refl) h.task_in
      h.state_in (omega arith) h.registers_in

-- Contents of the buffers do not matter.
pub contents-IsValid :
    (memory bytes : ℕ → ℕ) (m : Mmu)
    → IsValid m
    → IsValid (record m { memory = memory; internal_rom = bytes })
contents-IsValid memory bytes m h =
    IsValid-of_same m (record m { memory = memory; internal_rom = bytes }) h
      (refl, refl, refl, refl, refl, refl) h.task_in h.state_in h.prefix_in h.registers_in

pub set_mem-IsValid : (address value : ℕ) (m : Mmu) → IsValid m → IsValid (set_mem m address value)
unfolding set_mem
set_mem-IsValid address value m h = elim (Bool-cases (ltb address m.ram_size)) [
  | inl inside ↦
      rw inside (contents-IsValid (update m.memory address (value % 256)) m.internal_rom m h)
  | inr outside ↦ rw outside h
]

pub store-IsValid :
    (page : Page) (offset byte : ℕ) (m n : Mmu)
    → IsValid m
    → store m page offset byte ≡ some n
    → IsValid n
unfolding store
store-IsValid (ram base) offset byte m n h e = elim (Bool-cases (ltb (base + offset) m.ram_size)) [
  | inl inside ↦
      subst IsValid (some_inj (rw inside at e))
        (contents-IsValid (update m.memory (base + offset) byte) m.internal_rom m h)
  | inr outside ↦ absurd (cc (rw outside at e))
]
store-IsValid (rom base) offset byte m n h e = elim (Bool-cases (ltb (base + offset) 0x8000)) [
  | inl inside ↦
      subst IsValid (some_inj (rw inside at e))
        (contents-IsValid m.memory (update m.internal_rom (base + offset) byte) m h)
  | inr outside ↦ absurd (cc (rw outside at e))
]
store-IsValid null offset byte m n h e = cc

pub mapped_write-IsValid :
    (byte address : ℕ) (m n : Mmu) → IsValid m → mapped_write m byte address ≡ some n → IsValid n
unfolding mapped_write
mapped_write-IsValid byte address m n h e = elim (Bool-cases (is_writable m address)) [
  | inl writes ↦
      store-IsValid (m.mem_pages (current_register m address)) (address % 0x2000) byte m n h
        (rw writes at e)
  | inr blocked ↦ subst IsValid (some_inj (rw blocked at e)) h
]

pub set_mmu_register-IsValid :
    (register byte : ℕ) (m : Mmu)
    → byte < 256
    → IsValid m
    → IsValid (set_mmu_register register byte m)
unfolding set_mmu_register
set_mmu_register-IsValid register byte m lt h =
    IsValid-of_same m (set_mmu_register register byte m) h (refl, refl, refl, refl, refl, refl)
      h.task_in h.state_in h.prefix_in registers
  where
    value : ℕ
    value = m.mmu_prefix + byte % (ram_mask m.current_ram_config + 1)

    value_in : value < 1024
    value_in = omega (arith, h.prefix_in, mod-le byte (ram_mask m.current_ram_config + 1))

    register_cases :
        (task bank : ℕ)
        → bank < 8
        → (if (task == (if bit register 3 then 1 else 0)) && (bank == register % 8)
            then value
            else m.registers task bank)
          < 1024
    register_cases task bank b =
        elim (Bool-cases ((task == (if bit register 3 then 1 else 0)) && (bank == register % 8))) [
          | inl here ↦ rw here value_in
          | inr there ↦ rw there (h.registers_in task bank b)
        ]

    registers :
        (task bank : ℕ) → bank < 8 → (set_mmu_register register byte m).registers task bank < 1024
    registers task bank b =
        rw
          (update_row m.registers (if bit register 3 then 1 else 0) (register % 8)
            (m.mmu_prefix + byte % (ram_mask m.current_ram_config + 1)) task bank)
          (register_cases task bank b)

pub set_disto_ram_bank-IsValid :
    (byte : ℕ) (m : Mmu) → IsValid m → IsValid (set_disto_ram_bank byte m).0
unfolding set_disto_ram_bank
set_disto_ram_bank-IsValid byte m h = elim (Bool-cases (m.current_ram_config == 0)) [
  | inl zeroth ↦ rw zeroth h
  | inr a ↦ elim (Bool-cases (m.current_ram_config == 1)) [
    | inl first ↦ rw (a, first) h
    | inr b ↦ elim (Bool-cases (m.current_ram_config == 2)) [
      | inl second ↦ rw (a, b, second) (set_mmu_prefix-IsValid 0 m h)
      | inr c ↦ elim (Bool-cases (m.current_ram_config == 3)) [
        | inl third ↦ rw (a, b, c, third) (set_mmu_prefix-IsValid (byte / 16 % 4) m h)
        | inr d ↦ rw (a, b, c, d) h
      ]
    ]
  ]
]

state_switch-le : (c : ℕ) → state_switch c ≤ 56
state_switch-le zero = omega arith
state_switch-le (suc zero) = omega arith
state_switch-le (suc (suc zero)) = omega arith
state_switch-le (suc (suc (suc zero))) = omega arith
state_switch-le (suc (suc (suc (suc c)))) = omega arith

pub mmu_reset-IsValid :
    (m : Mmu)
    → m.current_ram_config < 4
    → m.ram_size ≡ mem_config m.current_ram_config
    → IsValid (mmu_reset m)
unfolding mmu_reset set_rom_map seen
mmu_reset-IsValid m c size = set_map_type-IsValid 0 _ (
    update_mmu_array-IsValid _ (record {
      config_in = c;
      size_exact = size;
      rom_map_in = omega arith;
      task_in = omega arith;
      state_in = omega arith;
      prefix_in = omega arith;
      registers_in = λ task bank b. omega (arith, state_switch-le m.current_ram_config);
      backdrop = λ r out. refl;
    }))

pub mmu_init-IsValid :
    (config : ℕ) (file : Option (List ℕ)) (m : Mmu)
    → config < 4
    → IsValid (mmu_init config file m).0
unfolding mmu_init
mmu_init-IsValid config file m c =
    mmu_reset-IsValid
      (record m {
        ram_size = mem_config config;
        current_ram_config = config;
        memory = λ i. if bit i 0 then 0 else 0xff;
        internal_rom = load_rom file;
      })
      c refl
