-- ===== src/Base/Bits.antt =====
-- `&`, `|` and `^` at variables: the lowest digit of each, and what a test of them for zero or
-- for equality says of the single bits.
pub mod Mask
use Prim.Native.Nat.{ℕ, zero, suc, ◌+◌, ◌-◌, ◌*◌, ◌^◌, ◌/◌, ◌%◌, ◌≤◌, ◌<◌, min, max}
use Prim.Native.Nat.{bit_and, bit_or, bit_xor, digits, bitwise, differ}
use Prim.Native.Nat.{bit_and-bitwise, bit_or-bitwise, bit_xor-bitwise, differ}
use mathlib.Core.Path.{◌≡◌, refl, ap, ◌∙◌}
use mathlib.Core.Logic.{◌↔◌, ◌≢◌, ◌⊎◌, inl, inr}
use native.Mathlib.Nat.{le_refl}
use native.Mathlib.Decide.{ℕ_discrete}
use native.Mathlib.Omega.{arith}

module _ (rest : ℕ → ℕ) (digit : ℕ → ℕ → ℕ) where
  -- One unit of fuel above the left operand changes nothing.
  more_fuel : (n a b : ℕ) → a ≤ n → digits rest digit (suc n) a b ≡ digits rest digit n a b
  more_fuel n zero b h = elim n as (λ k. digits rest digit (suc k) 0 b ≡ digits rest digit k 0 b) [
    | zero ↦ refl
    | suc k ↦ refl
  ]
  more_fuel zero (suc a) b h = elim h [ ]
  more_fuel (suc n) (suc a) b h =
      let half = more_fuel n (suc a / 2) (b / 2) (omega arith) in rw half

  -- Nor does any fuel between the two.
  enough_fuel : (n m a b : ℕ) → m ≤ n → a ≤ m → digits rest digit n a b ≡ digits rest digit m a b
  enough_fuel zero m a b h k = let e : m ≡ 0 = omega arith in rw e
  enough_fuel (suc n) m a b h k = elim (ℕ_discrete m (suc n)) [
    | yes e ↦ rw e
    | no other ↦ more_fuel n a b (omega arith) ∙ enough_fuel n m a b (omega arith) k
  ]

  lowest_digit :
      (a b : ℕ)
      → bitwise rest digit (suc a) b
        ≡ bitwise rest digit (suc a / 2) (b / 2) * 2 + digit (suc a % 2) (b % 2)
  lowest_digit a b =
      let half = enough_fuel a (suc a / 2) (suc a / 2) (b / 2) (omega arith) (omega arith) in
      ap (λ t. t * 2 + digit (suc a % 2) (b % 2)) half

pub bit_and_step : (x y : ℕ) → bit_and x y ≡ min (x % 2) (y % 2) + 2 * bit_and (x / 2) (y / 2)
bit_and_step (suc x) y = simp bit_and-bitwise (omega (arith, lowest_digit (λ y. 0) min x y))
bit_and_step zero y = simp bit_and-bitwise (omega arith)

pub bit_or_step : (x y : ℕ) → bit_or x y ≡ max (x % 2) (y % 2) + 2 * bit_or (x / 2) (y / 2)
bit_or_step (suc x) y = simp bit_or-bitwise (omega (arith, lowest_digit (λ y. y) max x y))
bit_or_step zero y = simp bit_or-bitwise (omega arith)

differ_digits : (x y : ℕ) → x < 2 → y < 2 → differ x y ≡ (x + y) % 2
differ_digits zero y p q = omega arith
differ_digits (suc zero) zero p q = refl
differ_digits (suc zero) (suc zero) p q = refl
differ_digits (suc zero) (suc (suc y)) p q = absurd (omega arith)
differ_digits (suc (suc x)) y p q = absurd (omega arith)

pub bit_xor_step : (a b : ℕ) → bit_xor a b ≡ bit_xor (a / 2) (b / 2) * 2 + (a % 2 + b % 2) % 2
bit_xor_step zero b = simp bit_xor-bitwise (omega arith)
bit_xor_step (suc a) b =
    simp bit_xor-bitwise
      (omega (arith, lowest_digit (λ y. y) differ a b, differ_digits (suc a % 2) (b % 2)))

pub Nat-cases : (n : ℕ) → (n ≡ 0) ⊎ (0 < n)
Nat-cases zero = inl refl
Nat-cases (suc n) = inr (omega arith)

-- The binary digit of `n` at position `i`, the lowest at 0.
abbrev pub bit_at : ℕ → ℕ → ℕ
bit_at zero n = n % 2
bit_at (suc i) n = bit_at i (n / 2)

pub bit_at-zero : (i : ℕ) → bit_at i 0 ≡ 0
bit_at-zero zero = refl
bit_at-zero (suc i) = bit_at-zero i

-- `a | b` is 0 only if both are.
bit_or-eq-zero_fuel : (n a b : ℕ) → a + b ≤ n → bit_or a b ≡ 0 → (a ≡ 0) × (b ≡ 0)
bit_or-eq-zero_fuel zero a b h e = omega arith
bit_or-eq-zero_fuel (suc n) a b h e =
    ground (arith, bit_or_step a b, bit_or-eq-zero_fuel n (a / 2) (b / 2))

pub bit_or-eq-zero : (a b : ℕ) → bit_or a b ≡ 0 → (a ≡ 0) × (b ≡ 0)
bit_or-eq-zero a b = bit_or-eq-zero_fuel (a + b) a b (le_refl _)

-- `a ^ b` is 0 only if the two are equal.
bit_xor-eq-zero_fuel : (n a b : ℕ) → a + b ≤ n → bit_xor a b ≡ 0 → a ≡ b
bit_xor-eq-zero_fuel zero a b h e = omega arith
bit_xor-eq-zero_fuel (suc n) a b h e =
    ground (arith, bit_xor_step a b, bit_xor-eq-zero_fuel n (a / 2) (b / 2))

pub bit_xor-eq-zero : (a b : ℕ) → bit_xor a b ≡ 0 → a ≡ b
bit_xor-eq-zero a b = bit_xor-eq-zero_fuel (a + b) a b (le_refl _)

bit_xor_self_fuel : (n a : ℕ) → a ≤ n → bit_xor a a ≡ 0
bit_xor_self_fuel zero zero h = refl
bit_xor_self_fuel zero (suc a) h = absurd (omega arith)
bit_xor_self_fuel (suc n) zero h = refl
bit_xor_self_fuel (suc n) (suc a) h =
    omega (arith, bit_xor_step (suc a) (suc a), bit_xor_self_fuel n (suc a / 2) (omega arith))

pub bit_xor_self : (a : ℕ) → bit_xor a a ≡ 0
bit_xor_self a = bit_xor_self_fuel a a (le_refl _)

-- Every bit that `b` has, `a` has.
abbrev pub HasBits : ℕ → ℕ → Type 0
HasBits a b = (i : ℕ) → bit_at i b ≡ 1 → bit_at i a ≡ 1

-- No bit is in both.
abbrev pub NoCommonBit : ℕ → ℕ → Type 0
NoCommonBit a b = (i : ℕ) → bit_at i a ≡ 1 → bit_at i b ≢ 1

-- The bits of `a & b` are those of both.
pub bit_at-bit_and : (i a b : ℕ) → bit_at i (bit_and a b) ≡ min (bit_at i a) (bit_at i b)
bit_at-bit_and zero a b = omega (arith, bit_and_step a b)
bit_at-bit_and (suc i) a b =
    let half : bit_and a b / 2 ≡ bit_and (a / 2) (b / 2) = omega (arith, bit_and_step a b) in
    rw half (bit_at-bit_and i (a / 2) (b / 2))

pub bit_at-lt : (i n : ℕ) → bit_at i n < 2
bit_at-lt zero n = omega arith
bit_at-lt (suc i) n = bit_at-lt i (n / 2)

-- Numbers with the same bits are equal.
bit_at-ext_fuel : (n a b : ℕ) → a + b ≤ n → ((i : ℕ) → bit_at i a ≡ bit_at i b) → a ≡ b
bit_at-ext_fuel zero a b h e = omega arith
bit_at-ext_fuel (suc n) a b h e = elim (Nat-cases (a + b)) [
  | inl none ↦ omega arith
  | inr some ↦ omega (arith, e 0, bit_at-ext_fuel n (a / 2) (b / 2) (omega arith) (λ i. e (suc i)))
]

pub bit_at-ext : (a b : ℕ) → ((i : ℕ) → bit_at i a ≡ bit_at i b) → a ≡ b
bit_at-ext a b = bit_at-ext_fuel (a + b) a b (le_refl _)

-- `(a & b) == b` says that `a` has every bit of `b`.
pub bit_and-eq-right_iff : (a b : ℕ) → (bit_and a b ≡ b) ↔ HasBits a b
bit_and-eq-right_iff a b = (
  λ e i h. omega (arith, bit_at-bit_and i a b, ap (bit_at i) e, bit_at-lt i a),
  λ h. bit_at-ext _ b λ i. elim (Nat-cases (bit_at i b)) [
    | inl off ↦ omega (arith, bit_at-bit_and i a b)
    | inr on ↦ omega (arith, bit_at-bit_and i a b, bit_at-lt i b, bit_at-lt i a, h i)
  ],
)

-- `(a & b) == 0` says that they share no bit.
pub bit_and-eq-zero_iff : (a b : ℕ) → (bit_and a b ≡ 0) ↔ NoCommonBit a b
bit_and-eq-zero_iff a b = (
  λ e i p q. omega (arith, bit_at-bit_and i a b, ap (bit_at i) e, bit_at-zero i),
  λ h. bit_at-ext _ 0 λ i. elim (Nat-cases (bit_at i a)) [
    | inl off ↦ omega (arith, bit_at-bit_and i a b, bit_at-zero i)
    | inr on ↦ omega (arith, bit_at-bit_and i a b, bit_at-zero i, bit_at-lt i b, bit_at-lt i a, h i)
  ],
)

pub bit_and-zero : (a : ℕ) → bit_and a 0 ≡ 0
bit_and-zero a = (bit_and-eq-zero_iff a 0).1 (λ i p q. omega (arith, bit_at-zero i))

pub bit_and_self : (a : ℕ) → bit_and a a ≡ a
bit_and_self a = (bit_and-eq-right_iff a a).1 (λ i h. h)

pub bit_at-bit_or : (i a b : ℕ) → bit_at i (bit_or a b) ≡ max (bit_at i a) (bit_at i b)
bit_at-bit_or zero a b = omega (arith, bit_or_step a b)
bit_at-bit_or (suc i) a b =
    let half : bit_or a b / 2 ≡ bit_or (a / 2) (b / 2) = omega (arith, bit_or_step a b) in
    rw half (bit_at-bit_or i (a / 2) (b / 2))

-- `((a | b) & m) == 0` tests both.
pub bit_and-bit_or-eq-zero_iff :
    (a b m : ℕ) → (bit_and (bit_or a b) m ≡ 0) ↔ ((bit_and a m ≡ 0) × (bit_and b m ≡ 0))
bit_and-bit_or-eq-zero_iff a b m = (
  λ e. (
    (bit_and-eq-zero_iff a m).1 (λ i p q.
        (bit_and-eq-zero_iff (bit_or a b) m).0 e i
          (omega (arith, bit_at-bit_or i a b, bit_at-lt i b)) q),
    (bit_and-eq-zero_iff b m).1 (λ i p q.
        (bit_and-eq-zero_iff (bit_or a b) m).0 e i
          (omega (arith, bit_at-bit_or i a b, bit_at-lt i a)) q),
  ),
  λ h. (bit_and-eq-zero_iff (bit_or a b) m).1 λ i p q. elim (Nat-cases (bit_at i a)) [
    | inl off ↦ (bit_and-eq-zero_iff b m).0 h.1 i (omega (arith, bit_at-bit_or i a b)) q
    | inr on ↦ (bit_and-eq-zero_iff a m).0 h.0 i (omega (arith, bit_at-lt i a)) q
  ],
)
