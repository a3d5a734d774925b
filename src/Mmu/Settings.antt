-- ===== src/Mmu/Settings.antt =====
-- The settings of the MMU as the registers that the program has written.
use cutiecoco.Base.{
  ℕ, zero, suc, ◌+◌, ◌*◌, ◌/◌, ◌%◌, ◌<◌, ◌≤◌, ◌≡◌, ◌≢◌, refl, ◌∙◌, ap, ap₂, sym, Bool, true, false,
  not, ◌&&◌, arith, leb, ◌==◌, if◌then◌else◌, Bool-cases, inl, inr,
}
use cutiecoco.Base.Bits.{bit, of_bool}
use cutiecoco.Base.Maps.{update, update_lem, update_ne, update_row}
use cutiecoco.Mmu.{
  Mmu, set_rom_map, set_vectors, set_mmu_register, set_mmu_task, set_mmu_enabled,
  set_disto_ram_bank, set_mmu_prefix, composite_state, update_mmu_array, ram_mask,
}

-- The settings of the MMU are those that the registers call for: $FF90 the MMU, the ROM map and the
-- RAM vectors, $FF91 the task, both the composite state, $FF9B the prefix of an 8192K machine, and
-- $FFA0 to $FFAF, masked to the pages of the memory, the low bytes of the page registers of the two
-- tasks.
pub record Reflects (f : ℕ → ℕ) (m : Mmu) : Type 0 where
  pub enabled : m.mmu_enabled ≡ of_bool (bit (f 0x90) 6)
  pub rom_map : m.rom_map ≡ f 0x90 % 4
  pub vectors : m.ram_vectors ≡ bit (f 0x90) 3
  pub task : m.mmu_task ≡ f 0x91 % 2
  pub state : m.mmu_state ≡ (if bit (f 0x90) 6 then 0 else 2) + f 0x91 % 2
  pub prefix : m.mmu_prefix ≡ (if m.current_ram_config == 3 then f 0x9b / 16 % 4 * 256 else 0)
  pub pages :
      (task bank : ℕ)
      → task < 2
      → bank < 8
      → m.registers task bank % 256
        ≡ f (0xa0 + task * 8 + bank) % (ram_mask m.current_ram_config + 1)

composite_lem :
    (b : Bool) (task : ℕ)
    → task < 2
    → composite_state (of_bool b) task ≡ (if b then 0 else 2) + task
composite_lem true zero lt = refl
composite_lem true (suc zero) lt = refl
composite_lem false zero lt = refl
composite_lem false (suc zero) lt = refl
composite_lem b (suc (suc n)) lt = absurd (omega arith)

rebuilt_frame :
    (m : Mmu)
    → let n = update_mmu_array m in
      (n.mmu_enabled ≡ m.mmu_enabled)
      × (n.rom_map ≡ m.rom_map)
      × (n.mmu_task ≡ m.mmu_task)
      × (n.mmu_state ≡ m.mmu_state)
      × (n.mmu_prefix ≡ m.mmu_prefix)
      × (n.current_ram_config ≡ m.current_ram_config)
      × (n.registers ≡ m.registers)
unfolding update_mmu_array
rebuilt_frame m = ground arith

module _ (f : ℕ → ℕ) (byte : ℕ) (m : Mmu) (lt : byte < 256) (h : Reflects f m) where
  pages_kept :
      (port : ℕ)
      → ((task bank : ℕ) → task < 2 → bank < 8 → 0xa0 + task * 8 + bank ≢ port)
      → (task bank : ℕ) → task < 2
      → bank < 8
      → m.registers task bank % 256
        ≡ update f port byte (0xa0 + task * 8 + bank) % (ram_mask m.current_ram_config + 1)
  pages_kept port far task bank t b =
      h.pages task bank t b
      ∙ ap (λ v. v % (ram_mask m.current_ram_config + 1))
          (sym (update_ne f port (0xa0 + task * 8 + bank) byte (far task bank t b)))

  pub init0-Reflects : Reflects (update f 0x90 byte) (
      set_vectors
        (if bit byte 3 then 8 else 0)
        (set_rom_map (byte % 4) (set_mmu_enabled (of_bool (bit byte 6)) m)))
  unfolding set_vectors set_rom_map set_mmu_enabled update
  init0-Reflects = record {
    enabled = (rebuilt_frame (record on { rom_map = byte % 4 % 4 })).0;
    rom_map = (rebuilt_frame (record on { rom_map = byte % 4 % 4 })).1 ∙ omega arith;
    vectors = vectors_set;
    task = (rebuilt_frame (record on { rom_map = byte % 4 % 4 })).2 ∙ h.task;
    state =
        (rebuilt_frame (record on { rom_map = byte % 4 % 4 })).3
        ∙ rw h.task (composite_lem (bit byte 6) (f 0x91 % 2) (omega arith));
    prefix =
        (rebuilt_frame (record on { rom_map = byte % 4 % 4 })).4
        ∙ h.prefix
        ∙ rw (rebuilt_frame (record on { rom_map = byte % 4 % 4 })).5;
    pages = λ task bank t b.
        rw
          (
            (rebuilt_frame (record on { rom_map = byte % 4 % 4 })).6,
            (rebuilt_frame (record on { rom_map = byte % 4 % 4 })).5,
          )
          (pages_kept 0x90 (λ task' bank' t' b' e. omega arith) task bank t b);
  }
    where
      on : Mmu
      on = set_mmu_enabled (of_bool (bit byte 6)) m

      vectors_set : not ((if bit byte 3 then 8 else 0) == 0) ≡ bit byte 3
      vectors_set = ground arith

  pub init1-Reflects : Reflects (update f 0x91 byte) (set_mmu_task (byte % 2) m)
  unfolding set_mmu_task update
  init1-Reflects = record {
    enabled = h.enabled;
    rom_map = h.rom_map;
    vectors = h.vectors;
    task = refl;
    state = rw h.enabled (composite_lem (bit (f 0x90) 6) (byte % 2) (omega arith));
    prefix = h.prefix;
    pages = pages_kept 0x91 (λ task bank t b e. omega arith);
  }

  pub disto-Reflects : Reflects (update f 0x9b byte) (set_disto_ram_bank byte m).0
  unfolding set_disto_ram_bank set_mmu_prefix update
  disto-Reflects = record {
    enabled = frame.0 ∙ h.enabled;
    rom_map = frame.1 ∙ h.rom_map;
    vectors = frame.2 ∙ h.vectors;
    task = frame.3 ∙ h.task;
    state = frame.4 ∙ h.state;
    prefix = ground (arith, h.prefix);
    pages = λ task bank t b.
        rw (frame.6, frame.5) (pages_kept 0x9b (λ task' bank' t' b' e. omega arith) task bank t b);
  }
    where
      frame :
          let n = (set_disto_ram_bank byte m).0 in
          (n.mmu_enabled ≡ m.mmu_enabled)
          × (n.rom_map ≡ m.rom_map)
          × (n.ram_vectors ≡ m.ram_vectors)
          × (n.mmu_task ≡ m.mmu_task)
          × (n.mmu_state ≡ m.mmu_state)
          × (n.current_ram_config ≡ m.current_ram_config)
          × (n.registers ≡ m.registers)
      frame = ground arith

  pub register-Reflects :
      (port : ℕ)
      → 0xa0 ≤ port
      → port ≤ 0xaf
      → Reflects (update f port byte) (set_mmu_register port byte m)
  unfolding set_mmu_register
  register-Reflects port low high = record {
    enabled = h.enabled ∙ ap (λ v. of_bool (bit v 6)) (same 0x90 (omega arith));
    rom_map = h.rom_map ∙ ap (λ v. v % 4) (same 0x90 (omega arith));
    vectors = h.vectors ∙ ap (λ v. bit v 3) (same 0x90 (omega arith));
    task = h.task ∙ ap (λ v. v % 2) (same 0x91 (omega arith));
    state =
        h.state
        ∙ ap₂ (λ v w. (if bit v 6 then 0 else 2) + w % 2) (same 0x90 (omega arith))
            (same 0x91 (omega arith));
    prefix =
        h.prefix
        ∙ ap (λ v. if m.current_ram_config == 3 then v / 16 % 4 * 256 else 0)
            (same 0x9b (omega arith));
    pages = λ task bank t b.
        rw
          (
            update_row m.registers (if bit port 3 then 1 else 0) (port % 8)
                (m.mmu_prefix + byte % (ram_mask m.current_ram_config + 1)) task bank,
            update_lem f port (0xa0 + task * 8 + bank) byte,
          )
          (elim (Bool-cases (0xa0 + task * 8 + bank == port)) [
            | inl e ↦
                rw (e, hit task bank t b e) (low_byte m.current_ram_config m.mmu_prefix h.prefix)
            | inr e ↦ rw (e, miss task bank t b e) (h.pages task bank t b)
          ]);
  }
    where
      same : (i : ℕ) → i < 0xa0 → f i ≡ update f port byte i
      same i far = sym (update_ne f port i byte (omega arith))

      hit :
          (task bank : ℕ)
          → task < 2
          → bank < 8
          → (0xa0 + task * 8 + bank == port) ≡ true
          → ((task == (if bit port 3 then 1 else 0)) && (bank == port % 8)) ≡ true
      hit task bank t b e = ground (arith, e)

      miss :
          (task bank : ℕ)
          → task < 2
          → bank < 8
          → (0xa0 + task * 8 + bank == port) ≡ false
          → ((task == (if bit port 3 then 1 else 0)) && (bank == port % 8)) ≡ false
      miss task bank t b e = ground (arith, e)

      low_byte :
          (c prefix : ℕ)
          → prefix ≡ (if c == 3 then f 0x9b / 16 % 4 * 256 else 0)
          → (prefix + byte % (ram_mask c + 1)) % 256 ≡ byte % (ram_mask c + 1)
      low_byte zero prefix p = omega (arith, p)
      low_byte (suc zero) prefix p = omega (arith, p)
      low_byte (suc (suc zero)) prefix p = omega (arith, p)
      low_byte (suc (suc (suc zero))) prefix p = omega (arith, p)
      low_byte (suc (suc (suc (suc c)))) prefix p = ground (arith, p)

  pub other-Reflects :
      (port : ℕ)
      → port ≢ 0x90
      → port ≢ 0x91
      → port ≢ 0x9b
      → (leb 0xa0 port && leb port 0xaf) ≡ false
      → Reflects (update f port byte) m
  other-Reflects port a b c d = record {
    enabled = h.enabled ∙ ap (λ v. of_bool (bit v 6)) (same 0x90 (λ e. a (sym e)));
    rom_map = h.rom_map ∙ ap (λ v. v % 4) (same 0x90 (λ e. a (sym e)));
    vectors = h.vectors ∙ ap (λ v. bit v 3) (same 0x90 (λ e. a (sym e)));
    task = h.task ∙ ap (λ v. v % 2) (same 0x91 (λ e. b (sym e)));
    state =
        h.state
        ∙ ap₂ (λ v w. (if bit v 6 then 0 else 2) + w % 2) (same 0x90 (λ e. a (sym e)))
            (same 0x91 (λ e. b (sym e)));
    prefix =
        h.prefix
        ∙ ap (λ v. if m.current_ram_config == 3 then v / 16 % 4 * 256 else 0)
            (same 0x9b (λ e. c (sym e)));
    pages = pages_kept port (λ task bank t k e. ground (arith, d, e));
  }
    where
      same : (i : ℕ) → i ≢ port → f i ≡ update f port byte i
      same i far = sym (update_ne f port i byte far)
