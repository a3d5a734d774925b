-- ===== src/Cpu/Lifo.antt =====
-- The stack of emulation/mc6809.cpp in twelve bytes of RAM, which is what an interrupt takes: bytes
-- are pulled in the reverse order of their pushes.
pub mod Interrupts
pub mod OnBoard
use cutiecoco.Base.{
  ℕ, zero, suc, ◌+◌, ◌*◌, ◌/◌, ◌%◌, ◌<◌, ◌≤◌, ◌≡◌, refl, ◌∙◌, sym, ap, subst, Bool, true, false,
  ◌==◌, if◌then◌else◌, arith, List, [], ◌∷◌,
}
use cutiecoco.Base.{length}
use cutiecoco.Base.Bits.{u8, u16}
use cutiecoco.Cpu.Bus.{
  Bus, State, Act, ◌>>=◌, pure, gets, modify, update_word, load8, store8, push8, pull8, push16,
  pull16,
}
use cutiecoco.Cpu.Registers.{Cpu, Reg16, reg_s, get16, set16}

-- Twelve bytes of a memory, from `base` on, that are RAM in the states `Ok`: a read gives what the
-- last write stored, a write changes no other of the twelve, and no read changes any.
pub record Ram (M : Type 0) ⦃bus : Bus M⦄ : Type 1 where
  pub base : ℕ
  pub Ok : M → Type 0
  pub peek : ℕ → M → ℕ
  pub base-lt : base + 12 < 65536
  pub read8-peek :
      (address : ℕ) (m : M)
      → base ≤ address
      → address < base + 12
      → Ok m
      → (bus.read8 address m).0 ≡ peek address m
  pub read8-Ok : (address : ℕ) (m : M) → Ok m → Ok (bus.read8 address m).1
  pub peek-read8 :
      (address other : ℕ) (m : M) → Ok m → peek other (bus.read8 address m).1 ≡ peek other m
  pub write8-Ok :
      (v address : ℕ) (m : M)
      → base ≤ address
      → address < base + 12
      → Ok m
      → Ok (bus.write8 v address m)
  pub peek-write8 :
      (v address other : ℕ) (m : M)
      → base ≤ address
      → address < base + 12
      → base ≤ other
      → other < base + 12
      → Ok m
      → peek other (bus.write8 v address m) ≡ (if other == address then u8 v else peek other m)

module _ {M : Type 0} ⦃bus : Bus M⦄ (ram : Ram M) where
  open ram use {base, Ok, peek}

  -- The bytes from an address on, in a state where they are RAM, up to the end of the twelve.
  pub data Stacked (m : M) : List ℕ → ℕ → Type 0 where
    bottom : {at : ℕ} → at ≡ base + 12 → Stacked m [] at
    above :
        {b at : ℕ} {bs : List ℕ}
        → base ≤ at
        → at < base + 12
        → peek at m ≡ b
        → Stacked m bs (at + 1)
        → Stacked m (b ∷ bs) at

  pub record Held (bs : List ℕ) (m : M) (at : ℕ) : Type 0 where
    pub ok : Ok m
    pub stacked : Stacked m bs at
    pub filled : at + length bs ≡ base + 12

  Stacked-read8 :
      (bs : List ℕ) (at address : ℕ) (m : M)
      → Ok m
      → Stacked m bs at
      → Stacked (bus.read8 address m).1 bs at
  Stacked-read8 [] at address m o (bottom e) = bottom e
  Stacked-read8 (b ∷ bs) at address m o (above low high e h) =
      above low high (ram.peek-read8 address at m o ∙ e) (Stacked-read8 bs (at + 1) address m o h)

  Stacked-write8 :
      (bs : List ℕ) (at address v : ℕ) (m : M)
      → base ≤ address
      → address < at
      → address < base + 12
      → Ok m
      → Stacked m bs at
      → Stacked (bus.write8 v address m) bs at
  Stacked-write8 [] at address v m low lt high o (bottom e) = bottom e
  Stacked-write8 (b ∷ bs) at address v m low lt high o (above l k e h) =
      above l k (ram.peek-write8 v address at m low high l k o ∙ rw other e)
        (Stacked-write8 bs (at + 1) address v m low (omega arith) high o h)
    where
      other : (at == address) ≡ false
      other = ground arith

  pub read8-Held :
      {bs : List ℕ} {at : ℕ} (address : ℕ) (m : M)
      → Held bs m at
      → Held bs (bus.read8 address m).1 at
  read8-Held {bs} {at} address m h = record {
    ok = ram.read8-Ok address m h.ok;
    stacked = Stacked-read8 bs at address m h.ok h.stacked;
    filled = h.filled;
  }

  -- The top of the system stack.
  abbrev pub Top : List ℕ → State M → Type 0
  Top bs s = Held bs s.memory s.cpu.s

  pub empty-Top : (s : State M) → Ok s.memory → s.cpu.s ≡ base + 12 → Top [] s
  empty-Top s o e = record { ok = o; stacked = bottom e; filled = omega (arith, e) }

  pub push8-Top :
      {bs : List ℕ} (v : ℕ) (s : State M)
      → v < 256
      → length bs < 12
      → Top bs s
      → Top (v ∷ bs) (push8 reg_s v s).1
  unfolding push8 ◌>>=◌ gets update_word modify store8 get16 set16
  push8-Top {bs} v s lt short h = record {
    ok = ram.write8-Ok (u8 v) below s.memory low high h.ok;
    stacked =
        above low high
          (ram.peek-write8 (u8 v) below below s.memory low high low high h.ok
            ∙ rw at_top (omega arith))
          (subst (λ a. Stacked (bus.write8 (u8 v) below s.memory) bs a) next
            (Stacked-write8 bs s.cpu.s below (u8 v) s.memory low (omega arith) high h.ok
              h.stacked));
    filled = omega (arith, h.filled, ram.base-lt);
  }
    where
      below : ℕ
      below = u16 (s.cpu.s + 65535)

      low : base ≤ u16 (s.cpu.s + 65535)
      low = omega (arith, h.filled, ram.base-lt)

      high : u16 (s.cpu.s + 65535) < base + 12
      high = omega (arith, h.filled, ram.base-lt)

      next : s.cpu.s ≡ u16 (s.cpu.s + 65535) + 1
      next = omega (arith, h.filled, ram.base-lt)

      at_top : (u16 (s.cpu.s + 65535) == u16 (s.cpu.s + 65535)) ≡ true
      at_top = ground arith

  -- The state after a byte is taken off.
  abbrev pub popped : State M → State M
  popped s = record s {
    cpu = record s.cpu { s = u16 (s.cpu.s + 1) };
    memory = (bus.read8 (u16 s.cpu.s) s.memory).1;
  }

  -- A pull takes the byte on top, and moves the stack pointer over it.
  pub pull8-Top :
      {bs : List ℕ} {v : ℕ} (s : State M) → Top (v ∷ bs) s → pull8 reg_s s ≡ (v, popped s)
  unfolding pull8 ◌>>=◌ gets update_word modify load8 get16 set16
  pull8-Top {bs} {v} s h = rw (value s.cpu.s s.memory h.ok h.stacked) refl
    where
      value : (at : ℕ) (m : M) → Ok m → Stacked m (v ∷ bs) at → (bus.read8 (u16 at) m).0 ≡ v
      value at m o (above low high e rest) =
          subst (λ a. (bus.read8 a m).0 ≡ v) (omega (arith, ram.base-lt))
            (ram.read8-peek at m low high o ∙ e)

  pub rest-Top : {bs : List ℕ} {v : ℕ} (s : State M) → Top (v ∷ bs) s → Top bs (popped s)
  rest-Top {bs} {v} s h = read8-Held (u16 s.cpu.s) s.memory (record {
    ok = h.ok;
    stacked = rest s.cpu.s s.memory h.stacked;
    filled = omega (arith, h.filled, ram.base-lt);
  })
    where
      rest : (at : ℕ) (m : M) → Stacked m (v ∷ bs) at → Stacked m bs (u16 (at + 1))
      rest at m (above low high e r) = subst (λ a. Stacked m bs a) (omega (arith, ram.base-lt)) r

  pub push16-Top :
      {bs : List ℕ} (v : ℕ) (s : State M)
      → v < 65536
      → length bs < 11
      → Top bs s
      → Top (v / 256 ∷ v % 256 ∷ bs) (push16 reg_s v s).1
  unfolding push16 ◌>>=◌
  push16-Top {bs} v s lt short h =
      push8-Top (v / 256) (push8 reg_s (v % 256) s).1 (omega arith) (omega arith)
        (push8-Top (v % 256) s (omega arith) (omega arith) h)

  pub pull16-Top :
      {bs : List ℕ} {high low : ℕ} (s : State M)
      → Top (high ∷ low ∷ bs) s
      → pull16 reg_s s ≡ (high * 256 + low, popped (popped s))
  unfolding pull16 ◌>>=◌ pure set16
  pull16-Top s h = rw (pull8-Top s h, pull8-Top (popped s) (rest-Top s h)) refl
