-- ===== src/Base/Bits/Mask.antt =====
-- Masks as arithmetic, at every width, and the test `n & (n - 1)` for a single bit.
use Prim.Native.Nat.{ℕ, zero, suc, ◌+◌, ◌-◌, ◌*◌, ◌^◌, ◌/◌, ◌%◌, ◌≤◌, ◌<◌, bit_and}
use mathlib.Core.Path.{◌≡◌, refl, ap}
use mathlib.Core.Logic.{inl, inr}
use native.Mathlib.Nat.{le_refl, pow-suc, one-le-pow}
use native.Mathlib.Omega.{arith}
use key_wallet.Base.Bits.{bit_and_step, bit_and-zero, bit_and_self, bit_at, Nat-cases}

-- Multiples of a power, one step up.
double_up : (k m p : ℕ) → p ≡ 2 ^ suc k → m * p ≡ 2 * (m * 2 ^ k)
double_up k m p e =
    let twice : p ≡ 2 * 2 ^ k = omega (arith, pow-suc 2 k) in
    rw twice (omega (arith, ap (λ (t : ℕ). m * t) twice))

-- A number by its low digits `low` and the others, `high`, counted in units of `p`.
low_digits : (k p high low : ℕ) → p ≡ 2 ^ k → low < p → bit_and (high * p + low) (p - 1) ≡ low
low_digits zero p high low e h =
    let one : p - 1 ≡ 0 = omega arith in rw (one, bit_and-zero) (omega arith)
low_digits (suc k) p high low e h =
    let half = low_digits k (2 ^ k) high (low / 2) refl (omega (arith, pow-suc 2 k)) in
    ground (
      arith,
      half,
      pow-suc 2 k,
      one-le-pow k 2,
      double_up k high p e,
      bit_and_step (high * p + low) (p - 1),
    )

high_digits :
    (k p high low m : ℕ)
    → p ≡ 2 ^ k
    → low < p
    → bit_and (high * p + low) (m * p) ≡ bit_and high m * p
high_digits zero p high low m e h =
    let one : p ≡ 1 = e in
    let left : high * p + low ≡ high = rw one (omega arith) in
    let right : m * p ≡ m = rw one (omega arith) in rw (left, right, one) (omega arith)
high_digits (suc k) p high low m e h =
    let half = high_digits k (2 ^ k) high (low / 2) m refl (omega (arith, pow-suc 2 k)) in
    ground (
      arith,
      half,
      double_up k high p e,
      double_up k m p e,
      double_up k (bit_and high m) p e,
      bit_and_step (high * p + low) (m * p),
    )

-- `a & ((1 << k) - 1)` keeps the low `k` bits.
pub bit_and-low_mask : (k a : ℕ) → bit_and a (2 ^ k - 1) ≡ a % 2 ^ k
bit_and-low_mask k a =
    let p = 2 ^ k in grind (arith, low_digits k p (a / p) (a % p) refl, one-le-pow k 2)

-- `a & ~((1 << k) - 1)` on a word of `k + j` bits: it is 0 exactly below `1 << k`.
pub bit_and-high_mask : (k j a : ℕ) → bit_and a ((2 ^ j - 1) * 2 ^ k) ≡ a / 2 ^ k % 2 ^ j * 2 ^ k
bit_and-high_mask k j a =
    let p = 2 ^ k in
    ground (
      arith,
      high_digits k p (a / p) (a % p) (2 ^ j - 1) refl,
      bit_and-low_mask j (a / p),
      one-le-pow k 2,
    )

-- `n & (n - 1)` is 0 for the powers of two only, and for 0.
single_bit_fuel : (f n : ℕ) → n ≤ f → 0 < n → bit_and n (n - 1) ≡ 0 → (i : ℕ) × (n ≡ 2 ^ i)
single_bit_fuel zero n h p e = absurd (omega arith)
single_bit_fuel (suc f) n h p e = elim (Nat-cases (n % 2)) [
  | inl even ↦
      let half : (n - 1) / 2 ≡ n / 2 - 1 = omega arith in
      let rest : bit_and (n / 2) (n / 2 - 1) ≡ 0 =
        rw (← half) (omega (arith, bit_and_step n (n - 1))) in
      let (i, q) = single_bit_fuel f (n / 2) (omega arith) (omega arith) rest in
      (suc i, omega (arith, pow-suc 2 i))
  | inr odd ↦
      let half : (n - 1) / 2 ≡ n / 2 = omega arith in
      let rest : bit_and (n / 2) (n / 2) ≡ 0 =
        rw half at (
          let r : bit_and (n / 2) ((n - 1) / 2) ≡ 0 = omega (arith, bit_and_step n (n - 1)) in r) in
      (0, omega (arith, bit_and_self (n / 2)))
]

pub single_bit : (n : ℕ) → 0 < n → bit_and n (n - 1) ≡ 0 → (i : ℕ) × (n ≡ 2 ^ i)
single_bit n = single_bit_fuel n n (le_refl _)

pub single_bit-pow : (i : ℕ) → bit_and (2 ^ i) (2 ^ i - 1) ≡ 0
single_bit-pow i = ground (arith, one-le-pow i 2, low_digits i (2 ^ i) 1 0 refl)

-- A single bit of a word.
pub bit_and-pow : (i a : ℕ) → bit_and a (2 ^ i) ≡ bit_at i a * 2 ^ i
bit_and-pow zero a = omega (arith, bit_and_step a 1, bit_and-zero (a / 2))
bit_and-pow (suc i) a = ground (
  arith,
  bit_and_step a (2 ^ suc i),
  pow-suc 2 i,
  double_up i (bit_at i (a / 2)) (2 ^ suc i) refl,
  bit_and-pow i (a / 2),
)
