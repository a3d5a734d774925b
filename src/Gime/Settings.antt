-- ===== src/Gime/Settings.antt =====
-- What the writes to the register file of emulation/tcc1014registers.cpp make of the MMU.
use cutiecoco.Base.{
  ℕ, ◌%◌, ◌<◌, ◌≡◌, ◌&&◌, arith, leb, ◌==◌, if◌then◌else◌, Bool-cases, ==_iff, inl, inr,
}
use cutiecoco.Base.Bits.{bit, of_bool}
use cutiecoco.Base.Maps.{update}
use cutiecoco.Gime.{Gime, gime_write, dispatch, set_init0, set_init1, set_gime_steering, set_timer}
use cutiecoco.Mmu.{
  Mmu, set_rom_map, set_vectors, set_mmu_register, set_mmu_task, set_mmu_enabled,
  set_disto_ram_bank,
}
use cutiecoco.Mmu.Settings.{
  Reflects, init0-Reflects, init1-Reflects, disto-Reflects, register-Reflects, other-Reflects,
}

-- The calls of `GimeWrite` that reach the MMU.
abbrev after_write : ℕ → ℕ → Mmu → Mmu
after_write port byte m =
    if port == 0x90
    then set_vectors (if bit byte 3 then 8 else 0)
        (set_rom_map (byte % 4) (set_mmu_enabled (of_bool (bit byte 6)) m))
    else if port == 0x91
    then set_mmu_task (byte % 2) m
    else if port == 0x9b
    then (set_disto_ram_bank byte m).0
    else if leb 0xa0 port && leb port 0xaf
    then set_mmu_register port byte m
    else m

gime_write-mmu :
    (port byte : ℕ) (g : Gime) (m : Mmu) → (gime_write port byte g m).1 ≡ after_write port byte m
unfolding gime_write dispatch set_init0 set_init1 set_gime_steering set_timer
gime_write-mmu port byte g m = ground arith

gime_write-registers :
    (port byte : ℕ) (g : Gime) (m : Mmu)
    → (gime_write port byte g m).0.registers ≡ update g.registers port byte
unfolding gime_write dispatch set_init0 set_init1 set_gime_steering set_timer
gime_write-registers port byte g m = ground arith

-- Where the settings of the MMU are those that the registers call for ($FF90 the MMU, the ROM map and
-- the RAM vectors, $FF91 the task, both the composite state, $FF9B the prefix of an 8192K machine,
-- $FFA0 to $FFAF, masked to the pages of the memory, the low bytes of the page registers of the two
-- tasks), they are again after any write of a byte to a register of the GIME.
pub gime_write-Reflects :
    (port byte : ℕ) (g : Gime) (m : Mmu)
    → byte < 256
    → Reflects g.registers m
    → Reflects (gime_write port byte g m).0.registers (gime_write port byte g m).1
gime_write-Reflects port byte g m lt h =
    rw (gime_write-registers port byte g m, gime_write-mmu port byte g m)
      (elim (Bool-cases (port == 0x90)) [
        | inl e ↦ rw ((==_iff port 0x90).0 e) (init0-Reflects g.registers byte m lt h)
        | inr a ↦ elim (Bool-cases (port == 0x91)) [
          | inl e ↦ rw ((==_iff port 0x91).0 e) (init1-Reflects g.registers byte m lt h)
          | inr b ↦ elim (Bool-cases (port == 0x9b)) [
            | inl e ↦ rw ((==_iff port 0x9b).0 e) (disto-Reflects g.registers byte m lt h)
            | inr c ↦ elim (Bool-cases (leb 0xa0 port && leb port 0xaf)) [
              | inl e ↦
                  rw (a, b, c, e)
                    (register-Reflects g.registers byte m lt h port (ground (arith, e))
                      (ground (arith, e)))
              | inr d ↦
                  rw (a, b, c, d)
                    (other-Reflects g.registers byte m lt h port (ground (arith, a))
                      (ground (arith, b)) (ground (arith, c)) d)
            ]
          ]
        ]
      ])
