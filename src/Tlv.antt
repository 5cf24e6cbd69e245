-- ===== src/Tlv.antt =====
-- FidoAuth/pico-keys-sdk/src/tlv.c: the tag-length-value records in APDU data and stored files.
-- A pointer into the buffer is the list of the bytes from it to the end of the context, so
-- `*p - data >= len` is the empty list; a NULL pointer is `none`.
pub mod Walk
pub mod Find
use key_wallet.Base.{
  ℕ, zero, suc, ◌+◌, ◌*◌, ◌/◌, ◌%◌, ◌^◌, bit_and, min, List, [], ◌∷◌, ◌++◌, Option, none, some, ltb,
  ◌==◌, if◌then◌else◌, length, take, drop, get_or, ◌>>=◌,
}
use key_wallet.Bytes.{put_uint16_be}

pub record Item : Type 0 where
  pub tag : ℕ
  pub value : List ℕ

-- `data` of `tlv_ctx_t`; its `len` is the length of the list.
abbrev pub TlvCtx : Type 0
TlvCtx = Option (List ℕ)

unfoldable pub tlv_len : TlvCtx → ℕ
tlv_len none = 0
tlv_len (some bytes) = length bytes

-- `d <<= 8; d |= byte` for the bytes of the loop.
unfoldable pub shift_in : ℕ → List ℕ → ℕ
shift_in d [] = d
shift_in d (byte ∷ bs) = shift_in (d * 256 % 2 ^ 32 + byte) bs

-- The callers check that the context is not empty.
unfoldable pub tlv_get_uint : List ℕ → ℕ
tlv_get_uint bytes = shift_in (get_or bytes 0 0) (drop 1 (take (min (length bytes) 4) bytes))

-- The bytes that `tlv_format_len` writes; what it returns is their number.
unfoldable pub tlv_format_len : ℕ → List ℕ
tlv_format_len len =
    if ltb len 128
    then len ∷ []
    else if ltb len 256
    then 0x81 ∷ len ∷ []
    else 0x82 ∷ put_uint16_be len

unfoldable pub tlv_len_tag : ℕ → ℕ → ℕ
tlv_len_tag tag len =
    let ret = (1 + length (tlv_format_len len) + len) % 2 ^ 16 in
    if ltb 0xff tag then (ret + 1) % 2 ^ 16 else ret

-- `tg <<= 8; tg |= *(*p)++`
unfoldable pub second_byte : ℕ → List ℕ → Option (ℕ × List ℕ)
second_byte tg [] = none
second_byte tg (b ∷ p) = some (tg * 256 % 2 ^ 16 + b, p)

unfoldable pub read_tag : List ℕ → Option (ℕ × List ℕ)
read_tag [] = none
read_tag (tg ∷ p) = if bit_and tg 0x1f == 0x1f then second_byte tg p else some (tg, p)

unfoldable pub long_length : List ℕ → Option (ℕ × List ℕ)
long_length [] = none
long_length (h ∷ p) = second_byte h p

unfoldable pub short_length : List ℕ → Option (ℕ × List ℕ)
short_length [] = none
short_length (tgl ∷ p) = some (tgl, p)

-- A tag at the very end has the length 0.
unfoldable pub read_length : List ℕ → Option (ℕ × List ℕ)
read_length [] = some (0, [])
read_length (tgl ∷ p) =
    if tgl == 0x82 then long_length p else if tgl == 0x81 then short_length p else some (tgl, p)

unfoldable pub read_value : ℕ → ℕ × List ℕ → Option (Item × List ℕ)
read_value tg (tgl, p) =
    if ltb (length p) tgl then none else some (record { tag = tg; value = take tgl p }, drop tgl p)

-- The item at `p` and the pointer behind it.
unfoldable pub walk_at : List ℕ → Option (Item × List ℕ)
walk_at p = read_tag p >>= (λ t. read_length t.1 >>= read_value t.0)

-- `none` is the result 0, after which no caller reads `p` or the item.
unfoldable pub tlv_walk : TlvCtx → Option (List ℕ) → Option (Item × List ℕ)
tlv_walk none p = none
tlv_walk (some bytes) none = walk_at bytes
tlv_walk (some bytes) (some p) = walk_at p

-- The body of the loop of `tlv_find_tag`, with the iterations that follow it.
unfoldable pub found : (List ℕ → Option (List ℕ)) → ℕ → Option (Item × List ℕ) → Option (List ℕ)
found next itag none = none
found next itag (some (i, p)) = if itag == i.tag then some i.value else next p

-- The loop, on fuel.
unfoldable pub find_from : ℕ → TlvCtx → ℕ → Option (List ℕ) → Option (List ℕ)
find_from zero ctx itag p = none
find_from (suc fuel) ctx itag p =
    found (λ rest. find_from fuel ctx itag (some rest)) itag (tlv_walk ctx p)

-- Every step consumes a byte, so the length is enough fuel.
unfoldable pub tlv_find_tag : TlvCtx → ℕ → Option (List ℕ)
tlv_find_tag ctx itag = find_from (suc (tlv_len ctx)) ctx itag none
