-- ===== src/Bytes/Bounds.antt =====
-- The fields of a byte string fit their widths, and writing them back gives the string.
use key_wallet.Base.{ℕ, zero, suc, ◌^◌, ◌≤◌, ◌<◌, ◌≡◌, List, [], ◌∷◌, ◌++◌, arith}
use key_wallet.Base.{length, get_or, drop, All}
use key_wallet.Bytes.{IsByte, get_uint16_be, get_uint32_be, put_uint16_be, put_uint32_be}

pub get_or-IsByte : (s : List ℕ) (i : ℕ) → All IsByte s → IsByte (get_or s i 0)
get_or-IsByte [] i h = omega arith
get_or-IsByte (b ∷ s) zero h = h.0
get_or-IsByte (b ∷ s) (suc i) h = get_or-IsByte s i h.1

module _ (s : List ℕ) (bytes : All IsByte s) where
  pub get_uint16_be-lt : get_uint16_be s < 2 ^ 16
  unfolding get_uint16_be
  get_uint16_be-lt = omega (arith, get_or-IsByte s 0 bytes, get_or-IsByte s 1 bytes)

  pub get_uint32_be-lt : get_uint32_be s < 2 ^ 32
  unfolding get_uint32_be
  get_uint32_be-lt = omega (
    arith,
    get_or-IsByte s 0 bytes,
    get_or-IsByte s 1 bytes,
    get_or-IsByte s 2 bytes,
    get_or-IsByte s 3 bytes,
  )

pub put-get_uint16_be :
    (s : List ℕ) → All IsByte s → 2 ≤ length s → put_uint16_be (get_uint16_be s) ++ drop 2 s ≡ s
unfolding get_uint16_be put_uint16_be
put-get_uint16_be (a ∷ b ∷ s) h n = ground arith
put-get_uint16_be (a ∷ []) h n = absurd (omega arith)
put-get_uint16_be [] h n = absurd (omega arith)

pub put-get_uint32_be :
    (s : List ℕ) → All IsByte s → 4 ≤ length s → put_uint32_be (get_uint32_be s) ++ drop 4 s ≡ s
unfolding get_uint32_be put_uint32_be
put-get_uint32_be (a ∷ b ∷ c ∷ d ∷ s) h n = ground arith
put-get_uint32_be (a ∷ b ∷ c ∷ []) h n = absurd (omega arith)
put-get_uint32_be (a ∷ b ∷ []) h n = absurd (omega arith)
put-get_uint32_be (a ∷ []) h n = absurd (omega arith)
put-get_uint32_be [] h n = absurd (omega arith)
