-- ===== src/Gime/Offset.antt =====
-- The display offset and the VDG mode, which a program sets bit by bit through pairs of ports.
use cutiecoco.Base.{
  ℕ, zero, suc, ◌+◌, ◌-◌, ◌*◌, ◌/◌, ◌≤◌, ◌<◌, ◌≡◌, Bool, true, false, arith, ltb, ◌==◌,
  if◌then◌else◌, ap, ◌∙◌,
}
use cutiecoco.Base.Bits.{bit, of_bool, clear_bit}
use cutiecoco.Base.BitOps.{bit-set_bit, bit-clear_bit}
use cutiecoco.Gime.{Gime, sam_write, put_bit}
use cutiecoco.Mmu.{Mmu}

pub bit-put_bit : (k j x : ℕ) (b : Bool) → bit (put_bit k b x) j ≡ (if j == k then b else bit x j)
bit-put_bit k j x true = ground (arith, bit-set_bit k j (clear_bit x k), bit-clear_bit k j x)
bit-put_bit k j x false = ground (arith, bit-clear_bit k j x)

-- A pair of ports from `base` on sets bit `k` to the parity of the port.
abbrev pub pair_port : ℕ → ℕ → ℕ → ℕ
pair_port base n k = base + k * 2 + of_bool (bit n k)

-- The writes that set the first `count` bits of a value.
pub program : ℕ → ℕ → ℕ → Gime × Mmu → Gime × Mmu
program base zero n s = s
program base (suc count) n s =
    let (g, m) = program base count n s in
    let (g', m', calls) = sam_write (pair_port base n count) g m in (g', m')

half : (k base : ℕ) (b : Bool) → (base + k * 2 + of_bool b - base) / 2 ≡ k
half k base true = omega arith
half k base false = omega arith

parity : (k base : ℕ) (b : Bool) → bit (base + k * 2 + of_bool b - base) 0 ≡ b
parity k base true = ground arith
parity k base false = ground arith

offset_step :
    (k : ℕ) (b : Bool) (g : Gime) (m : Mmu)
    → k < 7
    → (sam_write (0xc6 + k * 2 + of_bool b) g m).0.dis_offset ≡ put_bit k b g.dis_offset
unfolding sam_write
offset_step k true g m h = ground arith
offset_step k false g m h = ground arith

mode_step :
    (k : ℕ) (b : Bool) (g : Gime) (m : Mmu)
    → k < 3
    → (sam_write (0xc0 + k * 2 + of_bool b) g m).0.vdg_mode ≡ put_bit k b g.vdg_mode
unfolding sam_write
mode_step zero true g m h = ground arith
mode_step zero false g m h = ground arith
mode_step (suc zero) true g m h = ground arith
mode_step (suc zero) false g m h = ground arith
mode_step (suc (suc zero)) true g m h = ground arith
mode_step (suc (suc zero)) false g m h = ground arith
mode_step (suc (suc (suc k))) b g m h = absurd (omega arith)

set_below :
    (count n j : ℕ) (old x : ℕ)
    → bit x j ≡ (if ltb j count then bit n j else bit old j)
    → bit (put_bit count (bit n count) x) j ≡ (if ltb j (suc count) then bit n j else bit old j)
set_below count n j old x h = rw (bit-put_bit count j x (bit n count)) (ground (arith, h))

-- After writes to one port of each of the first `count` pairs from $FFC6 on, at most seven, the
-- display offset has in its lower `count` bits the value that the choice of the ports spells, and
-- its other bits as they were.
pub program_offset :
    (n j count : ℕ) (s : Gime × Mmu)
    → count ≤ 7
    → bit (program 0xc6 count n s).0.dis_offset j
      ≡ (if ltb j count then bit n j else bit s.0.dis_offset j)
unfolding program
program_offset n j zero s h = ground arith
program_offset n j (suc count) s h =
    let (g, m) = program 0xc6 count n s in
    ap (λ x. bit x j) (offset_step count (bit n count) g m (omega arith))
    ∙ set_below count n j s.0.dis_offset g.dis_offset (program_offset n j count s (omega arith))

-- The same holds for the first of the three pairs from $FFC0 on and the VDG mode.
pub program_mode :
    (n j count : ℕ) (s : Gime × Mmu)
    → count ≤ 3
    → bit (program 0xc0 count n s).0.vdg_mode j
      ≡ (if ltb j count then bit n j else bit s.0.vdg_mode j)
unfolding program
program_mode n j zero s h = ground arith
program_mode n j (suc count) s h =
    let (g, m) = program 0xc0 count n s in
    ap (λ x. bit x j) (mode_step count (bit n count) g m (omega arith))
    ∙ set_below count n j s.0.vdg_mode g.vdg_mode (program_mode n j count s (omega arith))
