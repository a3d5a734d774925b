-- ===== src/Base/BitOps.antt =====
-- What a single-bit update and a complement do to every bit, at every width.
use native.Mathlib.Nat.{pow-suc, div-eq_of_lt}
use native.Mathlib.Decide.{dec_lt}
use cutiecoco.Base.{
  ℕ, zero, suc, ◌+◌, ◌-◌, ◌*◌, ◌/◌, ◌%◌, ◌^◌, ◌<◌, ◌≤◌, ◌≡◌, refl, ◌∙◌, ap, Bool, true, false, not,
  ◌&&◌, ◌||◌, arith, ◌==◌,
}
use cutiecoco.Base.Bits.{bit, set_bit, clear_bit}
use cutiecoco.Base.BitLaws.{div-pow_suc, bit_and_halves, bit_or_halves, bit_xor_halves}
use Prim.Native.Nat.{bit_and, bit_or, bit_xor, differ}

-- A bit that is set weighs in the number.
pub pow-le_of_bit : (k x : ℕ) → bit x k ≡ true → 2 ^ k ≤ x
pow-le_of_bit k x h = elim (dec_lt x (2 ^ k)) [
  | yes small ↦ absurd (ground (arith, div-eq_of_lt small))
  | no large ↦ omega arith
]

pub bit_of_lt : (k x : ℕ) → x < 2 ^ k → bit x k ≡ false
bit_of_lt k x h = ground (arith, div-eq_of_lt h)

pub bit-suc : (x k : ℕ) → bit x (suc k) ≡ bit (x / 2) k
bit-suc x k = rw (div-pow_suc k x)

set_bit-suc : (x k : ℕ) → set_bit x (suc k) ≡ set_bit (x / 2) k * 2 + x % 2
set_bit-suc x k = ground (arith, div-pow_suc k x, pow-suc 2 k)

clear_bit-suc : (x k : ℕ) → clear_bit x (suc k) ≡ clear_bit (x / 2) k * 2 + x % 2
clear_bit-suc x k = ground (arith, div-pow_suc k x, pow-suc 2 k, pow-le_of_bit k (x / 2))

pub bit-set_bit : (k j x : ℕ) → bit (set_bit x k) j ≡ (j == k) || bit x j
bit-set_bit zero zero x = ground arith
bit-set_bit zero (suc j) x =
    rw (bit-suc (set_bit x 0) j, bit-suc x j)
      (ap (λ y. bit y j) {y = x / 2} (ground arith) ∙ ground arith)
bit-set_bit (suc k) zero x = ground (arith, set_bit-suc x k)
bit-set_bit (suc k) (suc j) x =
    rw (bit-suc (set_bit x (suc k)) j, bit-suc x j, set_bit-suc x k)
      (ap (λ y. bit y j) (omega arith) ∙ bit-set_bit k j (x / 2) ∙ ground arith)

pub bit-clear_bit : (k j x : ℕ) → bit (clear_bit x k) j ≡ not (j == k) && bit x j
bit-clear_bit zero zero x = ground arith
bit-clear_bit zero (suc j) x =
    rw (bit-suc (clear_bit x 0) j, bit-suc x j)
      (ap (λ y. bit y j) {y = x / 2} (ground arith) ∙ ground arith)
bit-clear_bit (suc k) zero x = ground (arith, clear_bit-suc x k)
bit-clear_bit (suc k) (suc j) x =
    rw (bit-suc (clear_bit x (suc k)) j, bit-suc x j, clear_bit-suc x k)
      (ap (λ y. bit y j) (omega arith) ∙ bit-clear_bit k j (x / 2) ∙ ground arith)

-- `~x` at width `n`.
pub bit_complement : (n j x : ℕ) → x < 2 ^ n → j < n → bit (2 ^ n - 1 - x) j ≡ not (bit x j)
bit_complement zero j x h lt = absurd (omega arith)
bit_complement (suc n) zero x h lt = ground (arith, pow-suc 2 n)
bit_complement (suc n) (suc j) x h lt =
    rw (bit-suc (2 ^ suc n - 1 - x) j, bit-suc x j)
      (ap (λ y. bit y j) halved
        ∙ bit_complement n j (x / 2) (omega (arith, pow-suc 2 n)) (omega arith))
  where
    halved : (2 ^ suc n - 1 - x) / 2 ≡ 2 ^ n - 1 - x / 2
    halved = omega (arith, pow-suc 2 n)

pub set_bit-lt : (n k x : ℕ) → x < 2 ^ n → k < n → set_bit x k < 2 ^ n
set_bit-lt zero k x h lt = absurd (omega arith)
set_bit-lt (suc n) zero x h lt = ground (arith, pow-suc 2 n)
set_bit-lt (suc n) (suc k) x h lt = omega (
  arith,
  pow-suc 2 n,
  set_bit-suc x k,
  set_bit-lt n k (x / 2) (omega (arith, pow-suc 2 n)) (omega arith),
)

pub clear_bit-le : (k x : ℕ) → clear_bit x k ≤ x
clear_bit-le k x = ground arith

-- `&` and `|` of any numbers, bit by bit.
pub bit-bit_and : (j a b : ℕ) → bit (bit_and a b) j ≡ bit a j && bit b j
bit-bit_and zero a b = ground (arith, bit_and_halves a b)
bit-bit_and (suc j) a b =
    rw (bit-suc (bit_and a b) j, bit-suc a j, bit-suc b j)
      (ap (λ y. bit y j) (omega (arith, bit_and_halves a b)) ∙ bit-bit_and j (a / 2) (b / 2))

pub bit-bit_or : (j a b : ℕ) → bit (bit_or a b) j ≡ bit a j || bit b j
bit-bit_or zero a b = ground (arith, bit_or_halves a b)
bit-bit_or (suc j) a b =
    rw (bit-suc (bit_or a b) j, bit-suc a j, bit-suc b j)
      (ap (λ y. bit y j) (omega (arith, bit_or_halves a b)) ∙ bit-bit_or j (a / 2) (b / 2))

-- Exclusive or of two bits.
abbrev pub xor : Bool → Bool → Bool
xor true b = not b
xor false b = b

differ_digits :
    (c d : ℕ) → c < 2 → d < 2 → (differ c d < 2) × ((differ c d == 1) ≡ xor (c == 1) (d == 1))
differ_digits zero zero h k = (omega arith, refl)
differ_digits zero (suc zero) h k = (omega arith, refl)
differ_digits (suc zero) zero h k = (omega arith, refl)
differ_digits (suc zero) (suc zero) h k = (omega arith, refl)
differ_digits (suc (suc c)) d h k = absurd (omega arith)
differ_digits c (suc (suc d)) h k = absurd (omega arith)

pub bit-bit_xor : (j a b : ℕ) → bit (bit_xor a b) j ≡ xor (bit a j) (bit b j)
bit-bit_xor zero a b =
    let (small, same) = differ_digits (a % 2) (b % 2) (omega arith) (omega arith) in
    let digit : bit_xor a b / 1 % 2 ≡ differ (a % 2) (b % 2) =
      omega (arith, bit_xor_halves a b, small) in
    let left : a / 1 ≡ a = omega arith in
    let right : b / 1 ≡ b = omega arith in rw (digit, left, right) same
bit-bit_xor (suc j) a b =
    let (small, same) = differ_digits (a % 2) (b % 2) (omega arith) (omega arith) in
    rw (bit-suc (bit_xor a b) j, bit-suc a j, bit-suc b j)
      (ap (λ y. bit y j) (omega (arith, bit_xor_halves a b, small)) ∙ bit-bit_xor j (a / 2) (b / 2))
