-- ===== src/Base/BitLaws.antt =====
-- The arithmetic forms of `Base.Bits` are the C++ operators: `&` with a low mask or with one bit,
-- and `|` with one bit, at every width.
use Prim.Native.Nat.{
  differ, bit_xor, bit_xor-bitwise, max, digits, bitwise, bit_and-bitwise, bit_or-bitwise, bit_and,
  bit_or,
}
use native.Mathlib.Nat.{le_refl, pow-suc, one-le-pow, div-add-mod, div-div-eq-div-mul}
use cutiecoco.Base.{
  ℕ, zero, suc, ◌+◌, ◌-◌, ◌*◌, ◌/◌, ◌%◌, ◌^◌, ◌≤◌, min, ◌≡◌, refl, ap, ◌∙◌, inl, inr, leb,
  Bool-cases, ◌↔◌, true, ◌==◌, ◌<◌, arith,
}
use cutiecoco.Base.Bits.{bit, set_bit}

-- The native operations stand for a recursion on digits, given the first number as fuel. Fuel
-- beyond the number that is left changes nothing.
module _ (z : ℕ → ℕ) (f : ℕ → ℕ → ℕ) where
  spare_fuel : (n a b : ℕ) → a ≤ n → digits z f (suc n) a b ≡ digits z f n a b
  spare_fuel zero zero b h = refl
  spare_fuel zero (suc a) b h = absurd (omega arith)
  spare_fuel (suc n) zero b h = refl
  spare_fuel (suc n) (suc a) b h =
      ap (λ d. d * 2 + f (suc a % 2) (b % 2)) (spare_fuel n (suc a / 2) (b / 2) (omega arith))

  own_fuel : (n a b : ℕ) → a ≤ n → digits z f n a b ≡ digits z f a a b
  own_fuel zero a b h = ap (λ k. digits z f k a b) {x = 0} {y = a} (omega arith)
  own_fuel (suc n) a b h = elim (Bool-cases (leb a n)) [
    | inl less ↦ spare_fuel n a b (ground (arith, less)) ∙ own_fuel n a b (ground (arith, less))
    | inr more ↦ ap (λ k. digits z f k a b) {x = suc n} {y = a} (ground (arith, more))
  ]

  first_digit :
      (b a : ℕ)
      → bitwise z f (suc a) b ≡ f (suc a % 2) (b % 2) + bitwise z f (suc a / 2) (b / 2) * 2
  first_digit b a = omega (arith, own_fuel a (suc a / 2) (b / 2) (omega arith))

pub bit_and_halves : (a b : ℕ) → bit_and a b ≡ bit_and (a / 2) (b / 2) * 2 + min (a % 2) (b % 2)
bit_and_halves zero b = simp bit_and-bitwise (omega arith)
bit_and_halves (suc a) b = simp bit_and-bitwise (first_digit (λ y. 0) min b a ∙ omega arith)

pub bit_or_halves : (a b : ℕ) → bit_or a b ≡ bit_or (a / 2) (b / 2) * 2 + max (a % 2) (b % 2)
bit_or_halves zero b = simp bit_or-bitwise (omega arith)
bit_or_halves (suc a) b = simp bit_or-bitwise (first_digit (λ y. y) max b a ∙ omega arith)

pub bit_xor_halves : (a b : ℕ) → bit_xor a b ≡ bit_xor (a / 2) (b / 2) * 2 + differ (a % 2) (b % 2)
bit_xor_halves zero b = simp bit_xor-bitwise (omega arith)
bit_xor_halves (suc a) b = simp bit_xor-bitwise (first_digit (λ y. y) differ b a ∙ omega arith)

-- Both operations with zero, on the right.
with_zero : (n a : ℕ) → a ≤ n → (bit_and a 0 ≡ 0) × (bit_or a 0 ≡ a)
with_zero n zero h = (refl, refl)
with_zero zero (suc a) h = absurd (omega arith)
with_zero (suc n) (suc a) h =
    let (conjunction, disjunction) = with_zero n (suc a / 2) (omega arith) in
    (
      omega (arith, conjunction, bit_and_halves (suc a) 0),
      omega (arith, disjunction, bit_or_halves (suc a) 0),
    )

pub bit_or-zero : (a : ℕ) → bit_or a 0 ≡ a
bit_or-zero a = (with_zero a a (le_refl a)).1

-- One more place is one more halving.
pub div-pow_suc : (k x : ℕ) → x / 2 ^ suc k ≡ x / 2 / 2 ^ k
div-pow_suc k x = rw (div-div-eq-div-mul x 2 (2 ^ k)) (ap (λ m. x / m) (omega (arith, pow-suc 2 k)))

pub mod-pow_suc : (k x : ℕ) → x % 2 ^ suc k ≡ x / 2 % 2 ^ k * 2 + x % 2
mod-pow_suc k x = omega (
  arith,
  div-add-mod x (2 ^ suc k),
  div-add-mod (x / 2) (2 ^ k),
  ap (λ (q : ℕ). 2 ^ suc k * q) (div-pow_suc k x),
  ap (λ (p : ℕ). p * (x / 2 / 2 ^ k)) (pow-suc 2 k),
)

-- `x & ((1 << k) - 1)` keeps the low `k` bits.
pub bit_and-low_mask : (k x : ℕ) → bit_and x (2 ^ k - 1) ≡ x % 2 ^ k
bit_and-low_mask zero x = omega (arith, (with_zero x x (le_refl x)).0)
bit_and-low_mask (suc k) x =
    let halved : (2 ^ suc k - 1) / 2 ≡ 2 ^ k - 1 = omega (arith, pow-suc 2 k) in
    let odd : (2 ^ suc k - 1) % 2 ≡ 1 = omega (arith, pow-suc 2 k, one-le-pow k 2) in
    rw (bit_and_halves x (2 ^ suc k - 1), halved, bit_and-low_mask k (x / 2), odd)
      (omega (arith, mod-pow_suc k x))

-- `x & (1 << k)` is the bit at its place.
pub bit_and_one_bit : (k x : ℕ) → bit_and x (2 ^ k) ≡ x / 2 ^ k % 2 * 2 ^ k
bit_and_one_bit zero x = omega (arith, bit_and-low_mask 1 x)
bit_and_one_bit (suc k) x =
    let halved : 2 ^ suc k / 2 ≡ 2 ^ k = omega (arith, pow-suc 2 k) in
    let even : 2 ^ suc k % 2 ≡ 0 = omega (arith, pow-suc 2 k) in
    rw (bit_and_halves x (2 ^ suc k), halved, bit_and_one_bit k (x / 2), even, div-pow_suc k x)
      (omega (arith, pow-suc 2 k, ap (λ (p : ℕ). x / 2 / 2 ^ k % 2 * p) (pow-suc 2 k)))

-- `x | (1 << k)` adds the bit where it is not there.
pub bit_or_one_bit : (k x : ℕ) → bit_or x (2 ^ k) ≡ x + (1 - x / 2 ^ k % 2) * 2 ^ k
bit_or_one_bit zero x = omega (arith, bit_or_halves x 1, bit_or-zero (x / 2))
bit_or_one_bit (suc k) x =
    let halved : 2 ^ suc k / 2 ≡ 2 ^ k = omega (arith, pow-suc 2 k) in
    let even : 2 ^ suc k % 2 ≡ 0 = omega (arith, pow-suc 2 k) in
    rw (bit_or_halves x (2 ^ suc k), halved, bit_or_one_bit k (x / 2), even, div-pow_suc k x)
      (omega (arith, ap (λ (p : ℕ). (1 - x / 2 / 2 ^ k % 2) * p) (pow-suc 2 k)))

one_bit_cases : (b p : ℕ) → b < 2 → 1 ≤ p → ((b == 1) ≡ true) ↔ (b * p ≡ p)
one_bit_cases zero p h k = ground arith
one_bit_cases (suc zero) p h k = ground arith
one_bit_cases (suc (suc b)) p h k = absurd (omega arith)

-- The model's Boolean and its update of a bit are those operators.
pub bit_iff : (k x : ℕ) → (bit x k ≡ true) ↔ (bit_and x (2 ^ k) ≡ 2 ^ k)
bit_iff k x =
    rw (bit_and_one_bit k x)
      (one_bit_cases (x / 2 ^ k % 2) (2 ^ k) (omega arith) (one-le-pow k 2 (omega arith)))

pub set_bit_lem : (k x : ℕ) → set_bit x k ≡ bit_or x (2 ^ k)
set_bit_lem k x = rw (bit_or_one_bit k x) (ground arith)
