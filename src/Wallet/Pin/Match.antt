-- ===== src/Wallet/Pin/Match.antt =====
-- `pin_hash_matches` compares all 60 characters: its accumulated difference is 0 only if they agree.
use key_wallet.Base.{
  ℕ, zero, suc, ◌+◌, ◌≤◌, ◌<◌, ◌≡◌, ◌↔◌, refl, List, true, get_or, bit_or, bit_xor,
}
use key_wallet.Base.{==_iff, arith}
use key_wallet.Base.Bits.{bit_or-eq-zero, bit_xor-eq-zero, bit_xor_self}
use key_wallet.Wallet.Pin.{difference_from, pin_hash_matches}
use native.Mathlib.Decide.{ℕ_discrete}

module _ (a b : List ℕ) where
  -- The two lists agree from index `i` up to `j`.
  abbrev pub AgreeFrom : ℕ → ℕ → Type 0
  AgreeFrom i j = (k : ℕ) → i ≤ k → k < j → get_or a k 0 ≡ get_or b k 0

  difference_sound : (n i d : ℕ) → difference_from n i d a b ≡ 0 → (d ≡ 0) × AgreeFrom i (i + n)
  unfolding difference_from
  difference_sound zero i d h = (h, λ k p q. absurd (omega arith))
  difference_sound (suc n) i d h =
      let bits = bit_xor (get_or a i 0) (get_or b i 0) in
      let (here, rest) = difference_sound n (i + 1) (bit_or d bits) h in
      let (old, same) = bit_or-eq-zero d bits here in
      (
        old,
        λ k p q. elim (ℕ_discrete k i) [
          | yes e ↦ rw e (bit_xor-eq-zero _ _ same)
          | no other ↦ rest k (omega arith) (omega arith)
        ],
      )

  difference_complete : (n i : ℕ) → AgreeFrom i (i + n) → difference_from n i 0 a b ≡ 0
  unfolding difference_from
  difference_complete zero i h = refl
  difference_complete (suc n) i h =
      rw (h i (omega arith) (omega arith), bit_xor_self)
        (difference_complete n (i + 1) (λ k p q. h k (omega arith) (omega arith)))

  -- It matches exactly if the first 60 characters are the same.
  pub pin_hash_matches_iff : (pin_hash_matches a b ≡ true) ↔ AgreeFrom 0 60
  unfolding pin_hash_matches
  pin_hash_matches_iff = (
    λ h. (difference_sound 60 0 0 ((==_iff _ 0).0 h)).1,
    λ h. (==_iff _ 0).1 (difference_complete 60 0 h),
  )
