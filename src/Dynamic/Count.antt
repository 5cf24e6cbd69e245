-- ===== src/Dynamic/Count.antt =====
-- FidoAuth/pico-keys-sdk/src/fs/file.c: the number of dynamic files in the slots.
use key_wallet.Base.{
  ℕ, zero, suc, ◌+◌, ◌≤◌, ◌<◌, ◌≡◌, inl, inr, refl, ap, false, ◌||◌, ◌==◌, if◌then◌else◌,
  Bool-cases, arith, ==_iff,
}
use key_wallet.Dynamic.{Slot, fid_empty, fid_deleted, set_slot}
use key_wallet.Dynamic.Path.{IsLive, IsFree}

unfoldable pub live : Slot → ℕ
live s = if (s.fid == fid_empty) || (s.fid == fid_deleted) then 0 else 1

unfoldable pub live_count : ℕ → (ℕ → Slot) → ℕ
live_count zero slots = 0
live_count (suc n) slots = live (slots n) + live_count n slots

pub live-free : (s : Slot) → IsFree s → live s ≡ 0
unfolding live
live-free s (inl e) = rw e refl
live-free s (inr e) = rw e refl

pub live-IsLive : (s : Slot) → IsLive s.fid → live s ≡ 1
unfolding live
live-IsLive s h =
    let a : (s.fid == fid_empty) ≡ false = ground (arith, h.0) in
    let b : (s.fid == fid_deleted) ≡ false = ground (arith, h.1) in rw (a, b) refl

same_below :
    (n i : ℕ) (new : Slot) (s : ℕ → Slot) → n ≤ i → live_count n (set_slot i new s) ≡ live_count n s
unfolding live_count
same_below zero i new s l = refl
same_below (suc n) i new s l =
    let differs : (n == i) ≡ false = ground (arith, l) in
    rw (differs, same_below n i new s (omega arith)) refl

-- A slot that changes changes the count by what it holds.
pub live_count-set_slot :
    (n i : ℕ) (new : Slot) (s : ℕ → Slot)
    → i < n
    → live_count n (set_slot i new s) + live (s i) ≡ live_count n s + live new
unfolding live_count
live_count-set_slot zero i new s l = absurd (omega arith)
live_count-set_slot (suc n) i new s l = elim (Bool-cases (n == i)) [
  | inl here ↦
      (let same : n ≡ i = (==_iff n i).0 here in
        let rest = same_below n i new s (omega (arith, same)) in
        let there : live (s n) ≡ live (s i) = ap (λ (j : ℕ). live (s j)) same in
        rw here (omega (arith, rest, there)))
  | inr differs ↦
      (let rest = live_count-set_slot n i new s (ground (arith, differs)) in
        rw differs (omega (arith, rest)))
]

pub live_count-full :
    (n : ℕ) (s : ℕ → Slot) → ((i : ℕ) → i < n → IsLive (s i).fid) → live_count n s ≡ n
unfolding live_count
live_count-full zero s h = refl
live_count-full (suc n) s h =
    let here = live-IsLive (s n) (h n (omega arith)) in
    let rest = live_count-full n s (λ i l. h i (omega arith)) in omega (arith, here, rest)

pub live_count-none : (n : ℕ) (s : Slot) → IsFree s → live_count n (λ i. s) ≡ 0
unfolding live_count
live_count-none zero s h = refl
live_count-none (suc n) s h = omega (arith, live-free s h, live_count-none n s h)
