-- ===== src/Cpu/Lifo/Interrupts.antt =====
-- RTI undoes the entry into an interrupt of emulation/mc6809.cpp.
use native.Mathlib.Nat.{pow-suc}
use cutiecoco.Base.{
  ℕ, zero, suc, ◌+◌, ◌*◌, ◌/◌, ◌%◌, ◌^◌, ◌<◌, ◌≡◌, refl, ◌∙◌, true, false, arith, List, [], ◌∷◌,
  lt→ltb,
}
use cutiecoco.Base.Bits.{u8, u16, bit}
use cutiecoco.Base.Maps.{update}
use cutiecoco.Cpu.{Codes, collect, get_cc_flags, set_cc_flags}
use cutiecoco.Cpu.Flags.{get_cc_flags-set_cc_flags}
use cutiecoco.Cpu.Bus.{
  Bus, State, ◌>>=◌, pure, gets, modify, update_word, update_byte, update_codes, update_lines, tick,
  load8, store8, load16, push8, push16,
}
use cutiecoco.Cpu.Lifo.{
  empty-Top, Ram, Top, read8-Held, push8-Top, pull8-Top, rest-Top, popped, push16-Top, pull16-Top,
}
use cutiecoco.Cpu.Registers.{Cpu, reg_s, get16, set16, get8, set8, entire}
use cutiecoco.Cpu.Stack.{
  push_entire, push_word, push_byte, pull_word, pull_byte, pull_registers, through_vector,
  enter_irq, rti, vector_irq, vector_nmi, cpu_nmi,
}
use cutiecoco.Cpu.Widths.{IsWellFormed}

collect-lt : (count : ℕ) (codes : Codes) → collect count codes < 2 ^ count
unfolding collect
collect-lt zero codes = omega arith
collect-lt (suc count) codes =
    let below = collect-lt count codes in ground (arith, pow-suc 2 count, below)

get_cc_flags-lt : (codes : Codes) → get_cc_flags codes < 256
unfolding get_cc_flags
get_cc_flags-lt codes = collect-lt 8 codes

abbrev word : ℕ → ℕ
word v = u16 (v / 256 * 256 + v % 256)

word_same : (v : ℕ) → v < 65536 → word v ≡ v
word_same v lt = omega arith

byte_same : (v : ℕ) → v < 256 → u8 v ≡ v
byte_same v lt = omega arith

-- The codes that are pulled are the codes that were pushed.
kept :
    (codes others : Codes) (k : ℕ)
    → k < 8
    → set_cc_flags (u8 (get_cc_flags codes)) others k ≡ codes k
unfolding set_cc_flags
kept codes others k lt =
    rw (lt→ltb k 8 lt, byte_same (get_cc_flags codes) (get_cc_flags-lt codes))
      ((get_cc_flags-set_cc_flags 0 k codes (omega arith)).0 ∙ rw (lt→ltb k 8 lt) refl)

-- Every register as it was, with this stack pointer; the codes differ in E alone.
abbrev pub Restored : Cpu → ℕ → Cpu → Type 0
Restored c top d =
    (d.pc ≡ c.pc)
    × (d.x ≡ c.x)
    × (d.y ≡ c.y)
    × (d.u ≡ c.u)
    × (d.a ≡ c.a)
    × (d.b ≡ c.b)
    × (d.dp ≡ c.dp)
    × ((k : ℕ) → k < 8 → d.codes k ≡ update c.codes entire true k)
    × (d.s ≡ top)

module _ {M : Type 0} ⦃bus : Bus M⦄ (ram : Ram M) where
  -- The registers on the stack, CC on top.
  abbrev frame : Cpu → List ℕ
  frame c =
      get_cc_flags (update c.codes entire true)
      ∷ c.a
      ∷ c.b
      ∷ c.dp
      ∷ c.x / 256
      ∷ c.x % 256
      ∷ c.y / 256
      ∷ c.y % 256
      ∷ c.u / 256
      ∷ c.u % 256
      ∷ c.pc / 256
      ∷ c.pc % 256
      ∷ []

  push_entire-Top :
      (s : State M)
      → IsWellFormed s.cpu
      → ram.Ok s.memory
      → s.cpu.s ≡ ram.base + 12
      → Top ram (frame s.cpu) (push_entire s).1
  unfolding push_entire push_word push_byte push16 push8 ◌>>=◌ gets modify update_word update_codes
      store8 get16 set16 get8 get_cc_flags
  push_entire-Top s h ok at_end =
      let s0 = record s { cpu = record s.cpu { codes = update s.cpu.codes entire true } } in
      let s1 = (push16 reg_s s.cpu.pc s0).1 in
      let s2 = (push16 reg_s s.cpu.u s1).1 in
      let s3 = (push16 reg_s s.cpu.y s2).1 in
      let s4 = (push16 reg_s s.cpu.x s3).1 in
      let s5 = (push8 reg_s s.cpu.dp s4).1 in
      let s6 = (push8 reg_s s.cpu.b s5).1 in
      let s7 = (push8 reg_s s.cpu.a s6).1 in
      let t1 = push16-Top ram s.cpu.pc s0 h.pc-lt (omega arith) (empty-Top ram s0 ok at_end) in
      let t2 = push16-Top ram s.cpu.u s1 h.u-lt (omega arith) t1 in
      let t3 = push16-Top ram s.cpu.y s2 h.y-lt (omega arith) t2 in
      let t4 = push16-Top ram s.cpu.x s3 h.x-lt (omega arith) t3 in
      let t5 = push8-Top ram s.cpu.dp s4 h.dp-lt (omega arith) t4 in
      let t6 = push8-Top ram s.cpu.b s5 h.b-lt (omega arith) t5 in
      let t7 = push8-Top ram s.cpu.a s6 h.a-lt (omega arith) t6 in
      push8-Top ram (get_cc_flags (update s.cpu.codes entire true)) s7 (get_cc_flags-lt _)
        (omega arith) t7

  -- The frame is on the stack, which is 12 bytes lower.
  record Entered (c : Cpu) (t : State M) : Type 0 where
    top : Top ram (frame c) t
    lowered : u16 (t.cpu.s + 12) ≡ c.s

  push_entire-Entered :
      (s : State M)
      → IsWellFormed s.cpu
      → ram.Ok s.memory
      → s.cpu.s ≡ ram.base + 12
      → Entered s.cpu (push_entire s).1
  unfolding push_entire push_word push_byte push16 push8 ◌>>=◌ gets modify update_word update_codes
      store8 get16 set16 get8 get_cc_flags
  push_entire-Entered s h ok at_end = record {
    top = push_entire-Top s h ok at_end;
    lowered = lower h.s-lt;
  }
    where
      lower : s.cpu.s < 65536 → u16 ((push_entire s).1.cpu.s + 12) ≡ s.cpu.s
      lower lt = omega arith

  enter_irq-Entered :
      (s : State M)
      → IsWellFormed s.cpu
      → ram.Ok s.memory
      → s.cpu.s ≡ ram.base + 12
      → Entered s.cpu (enter_irq s).1
  unfolding enter_irq through_vector load16 load8 ◌>>=◌ pure gets modify update_word update_codes
      tick set16
  enter_irq-Entered s h ok at_end =
      let t = (push_entire s).1 in
      let entered = push_entire-Entered s h ok at_end in
      record {
        top =
            read8-Held ram (u16 (vector_irq + 1)) (bus.read8 (u16 vector_irq) t.memory).1
              (read8-Held ram (u16 vector_irq) t.memory entered.top);
        lowered = entered.lowered;
      }

  cpu_nmi-Entered :
      (s : State M)
      → IsWellFormed s.cpu
      → ram.Ok s.memory
      → s.cpu.s ≡ ram.base + 12
      → Entered s.cpu (cpu_nmi s).1
  unfolding cpu_nmi through_vector load16 load8 ◌>>=◌ pure gets modify update_word update_codes
      update_lines tick set16
  cpu_nmi-Entered s h ok at_end =
      let t = (push_entire s).1 in
      let entered = push_entire-Entered s h ok at_end in
      record {
        top =
            read8-Held ram (u16 (vector_nmi + 1)) (bus.read8 (u16 vector_nmi) t.memory).1
              (read8-Held ram (u16 vector_nmi) t.memory entered.top);
        lowered = entered.lowered;
      }

  abbrev set_byte : (Cpu → Cpu) → State M → State M
  set_byte f t = record t { cpu = f t.cpu }

  abbrev off_two : State M → State M
  off_two t = popped ram (popped ram t)

  -- The codes that RTI takes off tell it to take off the rest.
  whole : (c : Cpu) → bit (u8 (get_cc_flags (update c.codes entire true))) 7 ≡ true
  whole c =
      let codes = update c.codes entire true in
      rw (byte_same (get_cc_flags codes) (get_cc_flags-lt codes))
        ((get_cc_flags-set_cc_flags 0 7 codes (omega arith)).0 ∙ (unfold update in refl))

  rti_lem :
      (c : Cpu) (t : State M)
      → IsWellFormed c
      → Top ram (frame c) t
      → Restored c (u16 (t.cpu.s + 12)) (rti t).1.cpu
  unfolding rti pull_byte pull_word pull_registers ◌>>=◌ gets modify update_word update_byte
      update_codes update_lines tick set16 set8 pure set_cc_flags
  rti_lem c t h top =
      let cc = get_cc_flags (update c.codes entire true) in
      let t1 =
        set_byte
          (λ d. record d {
            codes = set_cc_flags (u8 cc) d.codes;
            cycles = d.cycles + 6;
            lines = record d.lines { in_interrupt = false };
          })
          (popped ram t) in
      let h1 = rest-Top ram t top in
      let t2 = set_byte (λ d. record d { a = u8 c.a }) (popped ram t1) in
      let h2 = rest-Top ram t1 h1 in
      let t3 = set_byte (λ d. record d { b = u8 c.b }) (popped ram t2) in
      let h3 = rest-Top ram t2 h2 in
      let t4 = set_byte (λ d. record d { dp = u8 c.dp }) (popped ram t3) in
      let h4 = rest-Top ram t3 h3 in
      let t5 = set_byte (λ d. record d { x = word c.x }) (off_two t4) in
      let h5 = rest-Top ram (popped ram t4) (rest-Top ram t4 h4) in
      let t6 = set_byte (λ d. record d { y = word c.y }) (off_two t5) in
      let h6 = rest-Top ram (popped ram t5) (rest-Top ram t5 h5) in
      let t7 = set_byte (λ d. record d { u = word c.u }) (off_two t6) in
      let h7 = rest-Top ram (popped ram t6) (rest-Top ram t6 h6) in
      let t8 = set_byte (λ d. record d { cycles = d.cycles + 9 }) t7 in
      rw
        (
          pull8-Top ram t top,
          whole c,
          pull8-Top ram t1 h1,
          pull8-Top ram t2 h2,
          pull8-Top ram t3 h3,
          pull16-Top ram t4 h4,
          pull16-Top ram t5 h5,
          pull16-Top ram t6 h6,
          pull16-Top ram t8 h7,
        )
        (
          word_same c.pc h.pc-lt,
          word_same c.x h.x-lt,
          word_same c.y h.y-lt,
          word_same c.u h.u-lt,
          byte_same c.a h.a-lt,
          byte_same c.b h.b-lt,
          byte_same c.dp h.dp-lt,
          kept (update c.codes entire true) t.cpu.codes,
          omega arith,
        )

  -- RTI right after the entry into an IRQ or an NMI restores every register, where the twelve bytes
  -- below the stack pointer are RAM.
  pub restored :
      (s : State M)
      → IsWellFormed s.cpu
      → ram.Ok s.memory
      → s.cpu.s ≡ ram.base + 12
      → Restored s.cpu s.cpu.s (rti (enter_irq s).1).1.cpu
        × Restored s.cpu s.cpu.s (rti (cpu_nmi s).1).1.cpu
  restored s h ok at_end = (
    returned s h _ (enter_irq-Entered s h ok at_end),
    returned s h _ (cpu_nmi-Entered s h ok at_end),
  )
    where
      returned :
          (s : State M)
          → IsWellFormed s.cpu
          → (t : State M) → Entered s.cpu t
          → Restored s.cpu s.cpu.s (rti t).1.cpu
      returned s h t entered = rw⁻¹ entered.lowered (rti_lem s.cpu t h entered.top)
