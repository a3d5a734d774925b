-- ===== src/Cpu/Keeps/Moves.antt =====
-- The transfers and exchanges of emulation/mc6809.cpp, for a property that every assignment keeps.
use cutiecoco.Base.{ℕ, Bool, true, false, if◌then◌else◌}
use cutiecoco.Cpu.Bus.{Bus, modify}
use cutiecoco.Cpu.Transfers.{write_tfr_exg_register, exchange, transfer, exg, tfr}
use cutiecoco.Cpu.Registers.{Cpu, Reg16, Reg8}
use cutiecoco.Cpu.Keeps.Steps.{Stable, Keeps, Keeps-modify, memory_rules}

holds-if : {A : Type 0} (P : A → Type 0) (b : Bool) (x y : A) → P x → P y → P (if b then x else y)
holds-if P true x y hx hy = hx
holds-if P false x y hx hy = hy

module _ (P : Cpu → Type 0) ⦃stable : Stable P⦄ where
  holds-word :
      (b : Bool) (r : Reg16) (v : ℕ) (c rest : Cpu)
      → P c
      → P rest
      → P (if b then cutiecoco.Cpu.Registers.set16 r v c else rest)
  holds-word b r v c rest h hr = holds-if P b _ _ (stable.word r v c h) hr

  holds-byte :
      (b : Bool) (r : Reg8) (v : ℕ) (c rest : Cpu)
      → P c
      → P rest
      → P (if b then cutiecoco.Cpu.Registers.set8 r v c else rest)
  holds-byte b r v c rest h hr = holds-if P b _ _ (stable.byte r v c h) hr

  written : (n v : ℕ) (c : Cpu) → P c → P (write_tfr_exg_register n v c)
  unfolding write_tfr_exg_register
  written n v c h = search (holds-word, holds-byte) depth 30

  exchanged : (p : ℕ) (c : Cpu) → P c → P (exchange p c)
  unfolding exchange
  exchanged p c h = search written

  transferred : (p : ℕ) (c : Cpu) → P c → P (transfer p c)
  unfolding transfer
  transferred p c h = search written

module _ {P : Cpu → Type 0} {M : Type 0} ⦃stable : Stable P⦄ ⦃bus : Bus M⦄ where
  pub Keeps-exchange : (p : ℕ) → Keeps {M = M} P (modify (exchange p))
  Keeps-exchange p = Keeps-modify _ (exchanged P p)

  pub Keeps-transfer : (p : ℕ) → Keeps {M = M} P (modify (transfer p))
  Keeps-transfer p = Keeps-modify _ (transferred P p)

  pub Keeps-exg : Keeps {M = M} P exg
  unfolding exg
  Keeps-exg = search (memory_rules, Keeps-exchange)

  pub Keeps-tfr : Keeps {M = M} P tfr
  unfolding tfr
  Keeps-tfr = search (memory_rules, Keeps-transfer)
