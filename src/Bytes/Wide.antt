-- ===== src/Bytes/Wide.antt =====
-- FidoAuth/pico-keys-sdk/src/picokeys.h: the big-endian fields of 64 bits.
use key_wallet.Base.{ℕ, ◌+◌, ◌*◌, ◌/◌, ◌%◌, ◌^◌, ◌<◌, ◌≡◌, List, [], ◌∷◌, ◌++◌, get_or, arith}

unfoldable pub get_uint64_be : List ℕ → ℕ
get_uint64_be b =
    get_or b 0 0 * 0x100000000000000
    + get_or b 1 0 * 0x1000000000000
    + get_or b 2 0 * 0x10000000000
    + get_or b 3 0 * 0x100000000
    + get_or b 4 0 * 0x1000000
    + get_or b 5 0 * 0x10000
    + get_or b 6 0 * 256
    + get_or b 7 0

unfoldable pub put_uint64_be : ℕ → List ℕ
put_uint64_be n =
    n / 0x100000000000000 % 256
    ∷ n / 0x1000000000000 % 256
    ∷ n / 0x10000000000 % 256
    ∷ n / 0x100000000 % 256
    ∷ n / 0x1000000 % 256
    ∷ n / 0x10000 % 256
    ∷ n / 256 % 256
    ∷ n % 256
    ∷ []

-- A field of 64 bits that was put is got back, whatever follows it.
pub get-put_uint64_be :
    (n : ℕ) (rest : List ℕ) → n < 2 ^ 64 → get_uint64_be (put_uint64_be n ++ rest) ≡ n
unfolding get_uint64_be put_uint64_be
get-put_uint64_be n rest h = omega arith
