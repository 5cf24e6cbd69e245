-- ===== src/Bytes/RoundTrip.antt =====
-- A field that was put is got back, whatever follows it.
use key_wallet.Base.{◌+◌, ◌*◌, ◌/◌, ◌%◌, ℕ, ◌^◌, ◌<◌, ◌≡◌, List, ◌++◌, arith}
use key_wallet.Bytes.{get_uint16_be, get_uint32_be, put_uint16_be, put_uint32_be}

pub get-put_uint16_be :
    (n : ℕ) (rest : List ℕ) → n < 2 ^ 16 → get_uint16_be (put_uint16_be n ++ rest) ≡ n
unfolding get_uint16_be put_uint16_be
get-put_uint16_be n rest h = omega arith

pub get-put_uint32_be :
    (n : ℕ) (rest : List ℕ) → n < 2 ^ 32 → get_uint32_be (put_uint32_be n ++ rest) ≡ n
unfolding get_uint32_be put_uint32_be
get-put_uint32_be n rest h = omega arith

-- The same with the bytes written out.
pub uint16 : (n : ℕ) → n < 2 ^ 16 → n / 256 % 256 * 256 + n % 256 ≡ n
uint16 n h = omega arith

pub uint32 :
    (n : ℕ)
    → n < 2 ^ 32
    → n / 0x1000000 % 256 * 0x1000000 + n / 0x10000 % 256 * 0x10000 + n / 256 % 256 * 256 + n % 256
      ≡ n
uint32 n h = omega arith

pub uint64 :
    (n : ℕ)
    → n < 2 ^ 64
    → n / 0x100000000000000 % 256 * 0x100000000000000
        + n / 0x1000000000000 % 256 * 0x1000000000000
        + n / 0x10000000000 % 256 * 0x10000000000
        + n / 0x100000000 % 256 * 0x100000000
        + n / 0x1000000 % 256 * 0x1000000
        + n / 0x10000 % 256 * 0x10000
        + n / 256 % 256 * 256
        + n % 256
      ≡ n
uint64 n h = omega arith
