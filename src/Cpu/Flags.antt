-- ===== src/Cpu/Flags.antt =====
-- The condition codes as a byte.
use cutiecoco.Base.{
  ℕ, zero, suc, ◌<◌, ◌≤◌, ◌≡◌, refl, ◌∙◌, true, false, ◌&&◌, arith, ltb, ◌==◌, ==_iff, lt→ltb,
}
use cutiecoco.Base.Bits.{bit}
use cutiecoco.Base.BitOps.{bit-set_bit}
use cutiecoco.Base.Tables.{scan_below, scan_below_lem}
use cutiecoco.Cpu.{Codes, set_cc_flags, get_cc_flags, collect}

collect_lem : (count k : ℕ) (codes : Codes) → bit (collect count codes) k ≡ ltb k count && codes k
unfolding collect
collect_lem zero k codes = ground arith
collect_lem (suc count) k codes =
    ground (arith, bit-set_bit count k (collect count codes), collect_lem count k codes)

collect-set_cc_flags :
    (count bincc : ℕ) (c d : Codes)
    → count ≤ 8
    → collect count (set_cc_flags bincc c) ≡ collect count (set_cc_flags bincc d)
unfolding collect set_cc_flags
collect-set_cc_flags zero bincc c d h = refl
collect-set_cc_flags (suc count) bincc c d h =
    rw (collect-set_cc_flags count bincc c d (omega arith), lt→ltb count 8 (omega arith))

round_trip_table : scan_below (λ b. get_cc_flags (set_cc_flags b (λ i. false)) == b) 256 ≡ true
unfolding scan_below get_cc_flags set_cc_flags collect
round_trip_table = refl

-- The byte of the condition codes has the eight codes as its bits; a byte below 256 that is set as
-- codes is read back, and codes that are read and set again are the same codes.
pub get_cc_flags-set_cc_flags :
    (bincc k : ℕ) (codes : Codes)
    → bincc < 256
    → (bit (get_cc_flags codes) k ≡ ltb k 8 && codes k)
      × (get_cc_flags (set_cc_flags bincc codes) ≡ bincc)
      × (set_cc_flags (get_cc_flags codes) codes k ≡ codes k)
unfolding get_cc_flags set_cc_flags
get_cc_flags-set_cc_flags bincc k codes h = (
  collect_lem 8 k codes,
  collect-set_cc_flags 8 bincc codes (λ i. false) (omega arith) ∙ table,
  ground (arith, collect_lem 8 k codes),
)
  where
    table : get_cc_flags (set_cc_flags bincc (λ i. false)) ≡ bincc
    table = (==_iff _ _).0 (
        scan_below_lem (λ b. get_cc_flags (set_cc_flags b (λ i. false)) == b) bincc 256 h
          round_trip_table)
