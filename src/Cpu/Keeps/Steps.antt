-- ===== src/Cpu/Keeps/Steps.antt =====
-- The rules for the steps that the instructions of emulation/mc6809.cpp are made of.
use cutiecoco.Base.{ℕ, ◌+◌, Bool, true, false, if◌then◌else◌}
use cutiecoco.Cpu.{Codes, Interrupts}
use cutiecoco.Cpu.Bus.{
  Bus, State, Act, pure, ◌>>=◌, modify, gets, tick, update_word, update_byte, update_codes,
  update_lines, load8, store8, load16, store16, fetch8, fetch16, push8, pull8, push16, pull16,
}
use cutiecoco.Cpu.Registers.{Cpu, Reg16, Reg8, set16, set8}
use cutiecoco.Cpu.Address.{put_ea}

-- A property of the registers that no assignment of an instruction breaks.
pub record Stable (P : Cpu → Type 0) : Type 0 where
  pub word : (r : Reg16) (v : ℕ) (c : Cpu) → P c → P (set16 r v c)
  pub byte : (r : Reg8) (v : ℕ) (c : Cpu) → P c → P (set8 r v c)
  pub codes : (k : Codes) (c : Cpu) → P c → P (record c { codes = k })
  pub cycles : (n : ℕ) (c : Cpu) → P c → P (record c { cycles = c.cycles + n })
  pub ea : (v : ℕ) (c : Cpu) → P c → P (record c { ea = cutiecoco.Base.Bits.u16 v })
  pub lines : (l : Interrupts) (c : Cpu) → P c → P (record c { lines = l })

pub record Keeps {M A : Type 0} (P : Cpu → Type 0) (m : Act M A) : Type 0 where
  pub at : (s : State M) → P s.cpu → P (m s).1.cpu

module _ {P : Cpu → Type 0} {M : Type 0} where
  pub Keeps-pure : {A : Type 0} (a : A) → Keeps {M = M} P (pure a)
  unfolding pure
  Keeps-pure a = record { at = λ s h. h }

  pub Keeps-gets : {A : Type 0} (f : Cpu → A) → Keeps {M = M} P (gets f)
  unfolding gets
  Keeps-gets f = record { at = λ s h. h }

  pub Keeps-modify : (f : Cpu → Cpu) → ((c : Cpu) → P c → P (f c)) → Keeps {M = M} P (modify f)
  unfolding modify
  Keeps-modify f keeps = record { at = λ s h. keeps s.cpu h }

  pub Keeps-bind :
      {A B : Type 0} (first : Act M A) (rest : A → Act M B)
      → Keeps P first
      → ((v : A) → Keeps P (rest v))
      → Keeps P (first >>= rest)
  unfolding ◌>>=◌
  Keeps-bind first rest kept keeps = record {
    at = λ s h. (keeps (first s).0).at (first s).1 (kept.at s h);
  }

  pub Keeps-if :
      {A : Type 0} (b : Bool) (m n : Act M A) → Keeps P m → Keeps P n → Keeps P (if b then m else n)
  Keeps-if true m n km kn = km
  Keeps-if false m n km kn = kn

module _ {P : Cpu → Type 0} {M : Type 0} ⦃stable : Stable P⦄ where
  pub Keeps-update_word : (r : Reg16) (f : Cpu → ℕ) → Keeps {M = M} P (update_word r f)
  unfolding update_word
  Keeps-update_word r f = Keeps-modify _ (λ c. stable.word r (f c) c)

  pub Keeps-update_byte : (r : Reg8) (f : Cpu → ℕ) → Keeps {M = M} P (update_byte r f)
  unfolding update_byte
  Keeps-update_byte r f = Keeps-modify _ (λ c. stable.byte r (f c) c)

  pub Keeps-update_codes : (f : Cpu → Codes) → Keeps {M = M} P (update_codes f)
  unfolding update_codes
  Keeps-update_codes f = Keeps-modify _ (λ c. stable.codes (f c) c)

  pub Keeps-update_lines : (f : Interrupts → Interrupts) → Keeps {M = M} P (update_lines f)
  unfolding update_lines
  Keeps-update_lines f = Keeps-modify _ (λ c. stable.lines (f c.lines) c)

  pub Keeps-tick : (n : ℕ) → Keeps {M = M} P (tick n)
  unfolding tick
  Keeps-tick n = Keeps-modify _ (stable.cycles n)

  pub Keeps-put_ea : (v : ℕ) → Keeps {M = M} P (put_ea v)
  unfolding put_ea
  Keeps-put_ea v = Keeps-modify _ (stable.ea v)

pub ruleset step_rules = (
  Keeps-pure, Keeps-gets, Keeps-bind, Keeps-if, Keeps-update_word, Keeps-update_byte,
  Keeps-update_codes, Keeps-update_lines, Keeps-tick, Keeps-put_ea,
)

module _ {P : Cpu → Type 0} {M : Type 0} ⦃stable : Stable P⦄ ⦃bus : Bus M⦄ where
  pub Keeps-load8 : (address : ℕ) → Keeps {M = M} P (load8 address)
  unfolding load8
  Keeps-load8 address = record { at = λ s h. h }

  pub Keeps-store8 : (v address : ℕ) → Keeps {M = M} P (store8 v address)
  unfolding store8
  Keeps-store8 v address = record { at = λ s h. h }

  pub Keeps-load16 : (address : ℕ) → Keeps {M = M} P (load16 address)
  unfolding load16
  Keeps-load16 address = search (step_rules, Keeps-load8)

  pub Keeps-store16 : (v address : ℕ) → Keeps {M = M} P (store16 v address)
  unfolding store16
  Keeps-store16 v address = search (step_rules, Keeps-store8)

  pub Keeps-fetch8 : Keeps {M = M} P fetch8
  unfolding fetch8
  Keeps-fetch8 = search (step_rules, Keeps-load8)

  pub Keeps-fetch16 : Keeps {M = M} P fetch16
  unfolding fetch16
  Keeps-fetch16 = search (step_rules, Keeps-load16)

  pub Keeps-push8 : (r : Reg16) (v : ℕ) → Keeps {M = M} P (push8 r v)
  unfolding push8
  Keeps-push8 r v = search (step_rules, Keeps-store8)

  pub Keeps-pull8 : (r : Reg16) → Keeps {M = M} P (pull8 r)
  unfolding pull8
  Keeps-pull8 r = search (step_rules, Keeps-load8)

  pub Keeps-push16 : (r : Reg16) (v : ℕ) → Keeps {M = M} P (push16 r v)
  unfolding push16
  Keeps-push16 r v = search (step_rules, Keeps-push8)

  pub Keeps-pull16 : (r : Reg16) → Keeps {M = M} P (pull16 r)
  unfolding pull16
  Keeps-pull16 r = search (step_rules, Keeps-pull8)

pub ruleset memory_rules = (
  step_rules, Keeps-load8, Keeps-store8, Keeps-load16, Keeps-store16, Keeps-fetch8, Keeps-fetch16,
  Keeps-push8, Keeps-pull8, Keeps-push16, Keeps-pull16,
)
