-- ===== src/Bytes.antt =====
-- FidoAuth/pico-keys-sdk/src/picokeys.h: the status codes and the big-endian fields of a buffer.
-- A buffer is a list of bytes, and `b + k` of the C code is `drop k b`.
pub mod RoundTrip
pub mod Bounds
pub mod Wide
use key_wallet.Base.{ℕ, ◌+◌, ◌*◌, ◌/◌, ◌%◌, ◌^◌, ◌<◌, List, [], ◌∷◌, get_or}

-- The PICOKEYS_* results of the functions that return an int.
pub data Status : Type 0 where
  ok no_memory memory_fatal null_param file_not_found blocked no_login exec_error : Status
  wrong_length wrong_data wrong_dkek wrong_signature wrong_padding verification_failed : Status
  stale_handle : Status

abbrev pub IsByte : ℕ → Type 0
IsByte b = b < 256

-- `(b1 << 8) | b2` on bytes: the two parts share no bit, so the `|` is a sum.
abbrev pub make_uint16_be : ℕ → ℕ → ℕ
make_uint16_be b1 b2 = b1 * 256 + b2

abbrev pub make_uint32_be : ℕ → ℕ → ℕ → ℕ → ℕ
make_uint32_be b1 b2 b3 b4 = b1 * 0x1000000 + b2 * 0x10000 + b3 * 256 + b4

-- Bytes past the end of the list read as 0; the callers' length checks rule that out.
unfoldable pub get_uint16_be : List ℕ → ℕ
get_uint16_be b = make_uint16_be (get_or b 0 0) (get_or b 1 0)

unfoldable pub get_uint32_be : List ℕ → ℕ
get_uint32_be b = make_uint32_be (get_or b 0 0) (get_or b 1 0) (get_or b 2 0) (get_or b 3 0)

-- The bytes that `put_uint16_be` and `put_uint32_be` write.
unfoldable pub put_uint16_be : ℕ → List ℕ
put_uint16_be n = n / 256 % 256 ∷ n % 256 ∷ []

unfoldable pub put_uint32_be : ℕ → List ℕ
put_uint32_be n = n / 0x1000000 % 256 ∷ n / 0x10000 % 256 ∷ n / 256 % 256 ∷ n % 256 ∷ []
