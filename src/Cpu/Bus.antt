-- ===== src/Cpu/Bus.antt =====
-- The memory that the processor of emulation/mc6809.cpp works on, as an interface of the calls
-- that it makes, and actions on the processor and that memory. `MemRead16` and `MemWrite16` are
-- two accesses each, as in emulation/tcc1014mmu.cpp.
use cutiecoco.Base.{ℕ, ◌+◌, ◌*◌, ◌/◌, ◌%◌, ◌<◌, Bool}
use cutiecoco.Base.Bits.{u8, u16}
use cutiecoco.Base.Maps.{update}
use cutiecoco.Cpu.{Codes, Interrupts}
use cutiecoco.Cpu.Registers.{Cpu, Reg16, Reg8, get16, set16, set8}

-- `MemRead8`, which can change what it reads from, `MemWrite8`, and `SetMapType`.
pub record Bus (M : Type 0) : Type 0 where
  pub read8 : ℕ → M → ℕ × M
  pub write8 : ℕ → ℕ → M → M
  pub set_map : ℕ → M → M
  pub read8-lt : (address : ℕ) (m : M) → (read8 address m).0 < 256

pub record State (M : Type 0) : Type 0 where
  pub cpu : Cpu
  pub memory : M

abbrev pub Act : Type 0 → Type 0 → Type 0
Act M A = State M → A × State M

unfoldable pub pure : {M A : Type 0} → A → Act M A
pure a s = (a, s)

infixl 1 ◌>>=◌
unfoldable pub ◌>>=◌ : {M A B : Type 0} → Act M A → (A → Act M B) → Act M B
(m >>= f) s = let (a, s') = m s in f a s'

infixl 1 ◌>>◌
abbrev pub ◌>>◌ : {M A B : Type 0} → Act M A → Act M B → Act M B
m >> n = m >>= λ _. n

-- A change of the registers alone.
unfoldable pub modify : {M : Type 0} → (Cpu → Cpu) → Act M Unit
modify f s = (tt, record s { cpu = f s.cpu })

unfoldable pub gets : {M A : Type 0} → (Cpu → A) → Act M A
gets f s = (f s.cpu, s)

-- A register as it stands.
abbrev pub get : {M : Type 0} → Reg16 → Act M ℕ
get r = gets (get16 r)

-- Assignments to a register, to the condition codes and to the inputs.
unfoldable pub update_word : {M : Type 0} → Reg16 → (Cpu → ℕ) → Act M Unit
update_word r f = modify (λ c. set16 r (f c) c)

unfoldable pub update_byte : {M : Type 0} → Reg8 → (Cpu → ℕ) → Act M Unit
update_byte r f = modify (λ c. set8 r (f c) c)

unfoldable pub update_codes : {M : Type 0} → (Cpu → Codes) → Act M Unit
update_codes f = modify (λ c. record c { codes = f c })

unfoldable pub update_lines : {M : Type 0} → (Interrupts → Interrupts) → Act M Unit
update_lines f = modify (λ c. record c { lines = f c.lines })

abbrev pub put : {M : Type 0} → Reg16 → ℕ → Act M Unit
put r v = update_word r (λ _. v)

abbrev pub put_byte : {M : Type 0} → Reg8 → ℕ → Act M Unit
put_byte r v = update_byte r (λ _. v)

abbrev pub put_codes : {M : Type 0} → Codes → Act M Unit
put_codes codes = update_codes (λ _. codes)

abbrev pub put_code : {M : Type 0} → ℕ → Bool → Act M Unit
put_code k v = update_codes (λ c. update c.codes k v)

-- `pc.Reg += n`.
abbrev pub skip : {M : Type 0} → ℕ → Act M Unit
skip n = update_word Reg16.reg_pc (λ c. c.pc + n)

-- `CycleCounter += n`.
unfoldable pub tick : {M : Type 0} → ℕ → Act M Unit
tick n = modify (λ c. record c { cycles = c.cycles + n })

module _ {M : Type 0} ⦃bus : Bus M⦄ where
  unfoldable pub load8 : ℕ → Act M ℕ
  load8 address s = let (v, m) = bus.read8 (u16 address) s.memory in (v, record s { memory = m })

  unfoldable pub store8 : ℕ → ℕ → Act M Unit
  store8 v address s = (tt, record s { memory = bus.write8 (u8 v) (u16 address) s.memory })

  unfoldable pub load16 : ℕ → Act M ℕ
  load16 address = do high ← load8 address; low ← load8 (address + 1); pure (high * 256 + low)

  unfoldable pub store16 : ℕ → ℕ → Act M Unit
  store16 v address = do store8 (v / 256) address; store8 (v % 256) (address + 1)

  -- `MemRead8(pc.Reg++)`.
  unfoldable pub fetch8 : Act M ℕ
  fetch8 = do address ← get Reg16.reg_pc; put Reg16.reg_pc (address + 1); load8 address

  -- `MemRead16(pc.Reg)` and then `pc.Reg += 2`.
  unfoldable pub fetch16 : Act M ℕ
  fetch16 = do address ← get Reg16.reg_pc; put Reg16.reg_pc (address + 2); load16 address

  -- `MemWrite8(v, --r)` and `MemRead8(r++)` for a stack register.
  unfoldable pub push8 : Reg16 → ℕ → Act M Unit
  push8 r v = do top ← get r; put r (top + 65535); store8 v (top + 65535)

  unfoldable pub pull8 : Reg16 → Act M ℕ
  pull8 r = do top ← get r; put r (top + 1); load8 top

  unfoldable pub push16 : Reg16 → ℕ → Act M Unit
  push16 r v = do push8 r (v % 256); push8 r (v / 256)

  unfoldable pub pull16 : Reg16 → Act M ℕ
  pull16 r = do high ← pull8 r; low ← pull8 r; pure (high * 256 + low)
