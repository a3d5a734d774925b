-- ===== src/Mmu/Reach.antt =====
-- The states that the MMU can reach from its initialisation by the calls that the rest of the
-- program makes, in any order.
use cutiecoco.Base.{ℕ, ◌<◌, ◌≡◌, Option, some, List}
use cutiecoco.Mmu.{
  Mmu, set_rom_map, set_map_type, set_vectors, set_mmu_register, set_mmu_task, set_mmu_enabled,
  set_disto_ram_bank, mmu_reset, mmu_init, mapped_write, set_mem,
}
use cutiecoco.Mmu.Validity.{
  IsValid, set_rom_map-IsValid, set_map_type-IsValid, set_vectors-IsValid, set_mmu_register-IsValid,
  set_mmu_task-IsValid, set_mmu_enabled-IsValid, set_disto_ram_bank-IsValid, mmu_reset-IsValid,
  mmu_init-IsValid, mapped_write-IsValid, set_mem-IsValid,
}

-- One call. A byte of a port is below 256, and `Set_MmuTask` is given one bit.
pub data Step : Mmu → Mmu → Type 0 where
  register : (m : Mmu) (number byte : ℕ) → byte < 256 → Step m (set_mmu_register number byte m)
  task : (m : Mmu) (bit : ℕ) → bit < 2 → Step m (set_mmu_task bit m)
  enabled : (m : Mmu) (on : ℕ) → Step m (set_mmu_enabled on m)
  rom_map : (m : Mmu) (byte : ℕ) → Step m (set_rom_map byte m)
  map_type : (m : Mmu) (type : ℕ) → Step m (set_map_type type m)
  vectors : (m : Mmu) (byte : ℕ) → Step m (set_vectors byte m)
  disto : (m : Mmu) (byte : ℕ) → Step m (set_disto_ram_bank byte m).0
  write : (m : Mmu) {n : Mmu} (byte address : ℕ) → mapped_write m byte address ≡ some n → Step m n
  poke : (m : Mmu) (address value : ℕ) → Step m (set_mem m address value)
  reset : (m : Mmu) → Step m (mmu_reset m)
  init :
      (m : Mmu) (config : ℕ) (file : Option (List ℕ))
      → config < 4
      → Step m (mmu_init config file m).0

pub data Reach (s : Mmu) : Mmu → Type 0 where
  here : Reach s s
  next : {m n : Mmu} → Reach s m → Step m n → Reach s n

pub Step-IsValid : {m n : Mmu} → Step m n → IsValid m → IsValid n
Step-IsValid (register m number byte lt) h = set_mmu_register-IsValid number byte m lt h
Step-IsValid (task m bit lt) h = set_mmu_task-IsValid bit m lt h
Step-IsValid (enabled m on) h = set_mmu_enabled-IsValid on m h
Step-IsValid (rom_map m byte) h = set_rom_map-IsValid byte m h
Step-IsValid (map_type m type) h = set_map_type-IsValid type m h
Step-IsValid (vectors m byte) h = set_vectors-IsValid byte m h
Step-IsValid (disto m byte) h = set_disto_ram_bank-IsValid byte m h
Step-IsValid (write m {n} byte address e) h = mapped_write-IsValid byte address m n h e
Step-IsValid (poke m address value) h = set_mem-IsValid address value m h
Step-IsValid (reset m) h = mmu_reset-IsValid m h.config_in h.size_exact
Step-IsValid (init m config file lt) h = mmu_init-IsValid config file m lt

-- Whatever the program does after `MmuInit` with one of the four memory sizes, the registers and
-- the composite state stay in range, and every entry of the page table shows the page that the
-- map type and the ROM map call for.
pub Reach-IsValid :
    (config : ℕ) (file : Option (List ℕ)) (blank : Mmu) {m : Mmu}
    → config < 4
    → Reach (mmu_init config file blank).0 m
    → IsValid m
Reach-IsValid config file blank lt here = mmu_init-IsValid config file blank lt
Reach-IsValid config file blank lt (next r s) =
    Step-IsValid s (Reach-IsValid config file blank lt r)
