-- ===== src/Base/Tables.antt =====
-- Checking a property of every number below a small bound by evaluation.
use cutiecoco.Base.{ℕ, zero, suc, ◌<◌, ◌≡◌, Bool, true, ◌&&◌, arith}

-- The property of the `count` numbers below a bound, from the largest down.
module _ (holds : ℕ → Bool) where
  unfoldable pub scan_below : (count : ℕ) → Bool
  scan_below zero = true
  scan_below (suc count) = scan_below count && holds count

  pub scan_below_lem : (x count : ℕ) → x < count → scan_below count ≡ true → holds x ≡ true
  unfolding scan_below
  scan_below_lem x zero below scanned = absurd (omega arith)
  scan_below_lem x (suc count) below scanned = ground (arith, scanned, scan_below_lem x count)
