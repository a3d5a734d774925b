-- ===== src/Cpu/Progress/Clock.antt =====
-- Rules for the cycle counter of emulation/mc6809.cpp: an action after which it is past `k`, if it
-- was at least `k` before.
use cutiecoco.Base.{ℕ, suc, ◌≤◌, ◌≡◌, Bool, true, false, if◌then◌else◌, arith, ltb}
use cutiecoco.Cpu.Bus.{State, Act, ◌>>=◌, modify, tick}
use cutiecoco.Cpu.Registers.{Cpu, Reg16, Reg8, set16, set8}
use cutiecoco.Cpu.Rows.Control.{reset_registers}
use cutiecoco.Cpu.Keeps.Steps.{Stable, Keeps}
use cutiecoco.Cpu.Keeps.Control.{Restarts}

abbrev pub AtLeast : ℕ → Cpu → Type 0
AtLeast k c = k ≤ c.cycles

-- The condition `t` says whether the action is one that moves the counter.
pub record Passes {M A : Type 0} (k : ℕ) (t : Bool) (m : Act M A) : Type 0 where
  pub at : t ≡ true → (s : State M) → AtLeast k s.cpu → AtLeast (suc k) (m s).1.cpu

set16-AtLeast : (k : ℕ) (r : Reg16) (v : ℕ) (c : Cpu) → AtLeast k c → AtLeast k (set16 r v c)
unfolding set16
set16-AtLeast k Reg16.reg_d v c h = h
set16-AtLeast k Reg16.reg_x v c h = h
set16-AtLeast k Reg16.reg_y v c h = h
set16-AtLeast k Reg16.reg_u v c h = h
set16-AtLeast k Reg16.reg_s v c h = h
set16-AtLeast k Reg16.reg_pc v c h = h

set8-AtLeast : (k : ℕ) (r : Reg8) (v : ℕ) (c : Cpu) → AtLeast k c → AtLeast k (set8 r v c)
unfolding set8
set8-AtLeast k Reg8.reg_a v c h = h
set8-AtLeast k Reg8.reg_b v c h = h
set8-AtLeast k Reg8.reg_dp v c h = h
set8-AtLeast k Reg8.reg_cc v c h = h

instance pub clock-Stable : {k : ℕ} → Stable (AtLeast k)
clock-Stable {k} = record {
  word = set16-AtLeast k;
  byte = set8-AtLeast k;
  codes = λ k c h. h;
  cycles = λ n c h. omega arith;
  ea = λ v c h. h;
  lines = λ l c h. h;
}

-- SYNC sets the counter to the length of the slice.
pub clock-Restarts : {k : ℕ} (cycle_for : ℕ) → k ≤ cycle_for → Restarts cycle_for (AtLeast k)
unfolding reset_registers
clock-Restarts cycle_for le = record {
  wait = λ c h. le;
  reset = λ c h. h;
  ramp = λ v c h. h;
  resume = λ c h. h;
}

module _ {M A : Type 0} {k : ℕ} where
  pub Passes-none : (m : Act M A) → Passes k false m
  Passes-none m = record { at = λ e s h. ground arith }

  pub Passes-if :
      (b t t' : Bool) (m n : Act M A)
      → Passes k t m
      → Passes k t' n
      → Passes k (if b then t else t') (if b then m else n)
  Passes-if true t t' m n pm pn = pm
  Passes-if false t t' m n pm pn = pn

  pub Passes-both :
      (b t : Bool) (m n : Act M A) → Passes k t m → Passes k t n → Passes k t (if b then m else n)
  Passes-both true t m n pm pn = pm
  Passes-both false t m n pm pn = pn

module _ {M A B : Type 0} {k : ℕ} {t : Bool} where
  -- The rest of the block moves the counter.
  pub Passes-after :
      (m : Act M A) (f : A → Act M B)
      → Keeps (AtLeast k) m
      → ((a : A) → Passes k t (f a))
      → Passes k t (m >>= f)
  unfolding ◌>>=◌
  Passes-after m f keeps passes = record {
    at = λ e s h. (passes (m s).0).at e (m s).1 (keeps.at s h);
  }

  -- The first step moves it, and the rest does not take it back.
  pub Passes-before :
      (m : Act M A) (f : A → Act M B)
      → Passes k t m
      → ((a : A) → Keeps (AtLeast (suc k)) (f a))
      → Passes k t (m >>= f)
  unfolding ◌>>=◌
  Passes-before m f passes keeps = record {
    at = λ e s h. (keeps (m s).0).at (m s).1 (passes.at e s h);
  }

pub Passes-tick : {M : Type 0} {k : ℕ} (n : ℕ) → ltb 0 n ≡ true → Passes {M = M} k true (tick n)
unfolding tick modify
Passes-tick n positive = record { at = λ e s h. ground arith }

pub ruleset passing_rules = (Passes-none, Passes-if, Passes-both, Passes-after, Passes-tick)
