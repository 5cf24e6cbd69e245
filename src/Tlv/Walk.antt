-- ===== src/Tlv/Walk.antt =====
-- FidoAuth/pico-keys-sdk/src/tlv.c, tlv_walk: what one step reads.
use key_wallet.Base.{
  ℕ, ◌+◌, ◌*◌, ◌/◌, ◌%◌, ◌^◌, ◌≤◌, ◌<◌, ◌≡◌, ◌≢◌, ◌⊎◌, inl, inr, refl, bit_and, List, [], ◌∷◌, ◌++◌,
  Option, none, some, ltb, if◌then◌else◌, length, ◌>>=◌, arith, take-append, drop-append,
  length-append, append_assoc, length-take, length-drop,
}
use key_wallet.Bytes.{put_uint16_be}
use key_wallet.Tlv.{
  Item, tlv_format_len, tlv_len_tag, second_byte, read_tag, long_length, short_length, read_length,
  read_value, walk_at,
}

-- The tags that one or two bytes hold, as `tlv_walk` tells them apart.
abbrev pub IsTag : ℕ → Type 0
IsTag tag =
    (tag < 256) × (bit_and tag 0x1f ≢ 0x1f)
    ⊎ (255 < tag) × (tag < 2 ^ 16) × (bit_and (tag / 256) 0x1f ≡ 0x1f)

unfoldable pub tag_bytes : ℕ → List ℕ
tag_bytes tag = if ltb 0xff tag then put_uint16_be tag else tag ∷ []

-- The bytes of an item, as the callers of `tlv_format_len` write them.
unfoldable pub encode : Item → List ℕ
encode i = tag_bytes i.tag ++ (tlv_format_len (length i.value) ++ i.value)

abbrev pub IsItem : Item → Type 0
IsItem i = IsTag i.tag × (length i.value < 2 ^ 16)

-- Two bytes of a big-endian number, put together again.
two_bytes : (n : ℕ) → n < 2 ^ 16 → n / 256 % 256 * 256 % 2 ^ 16 + n % 256 ≡ n
two_bytes n h = omega arith

high_byte : (n : ℕ) → n < 2 ^ 16 → n / 256 % 256 ≡ n / 256
high_byte n h = omega arith

read_tag-tag_bytes :
    (tag : ℕ) (p : List ℕ) → IsTag tag → read_tag (tag_bytes tag ++ p) ≡ some (tag, p)
unfolding read_tag tag_bytes second_byte put_uint16_be
read_tag-tag_bytes tag p (inl (small, low)) = ground arith
read_tag-tag_bytes tag p (inr (large, bound, low)) =
    ground (arith, two_bytes tag bound, high_byte tag bound)

read_length-tlv_format_len :
    (len : ℕ) (p : List ℕ) → len < 2 ^ 16 → read_length (tlv_format_len len ++ p) ≡ some (len, p)
unfolding read_length tlv_format_len long_length short_length second_byte put_uint16_be
read_length-tlv_format_len len p h = ground (arith, two_bytes len h)

read_value-append :
    (tag : ℕ) (v p : List ℕ)
    → read_value tag (length v, v ++ p) ≡ some (record { tag = tag; value = v }, p)
unfolding read_value
read_value-append tag v p = ground (arith, take-append v p, drop-append v p, length-append v p)

-- An item takes at least one byte.
pub encode-length : (i : Item) → 0 < length (encode i)
unfolding encode tag_bytes put_uint16_be
encode-length i =
    ground (arith, length-append (tag_bytes i.tag) (tlv_format_len (length i.value) ++ i.value))

-- A walk over the bytes of an item reads the item and stops behind it.
pub walk_at-encode : (i : Item) (p : List ℕ) → IsItem i → walk_at (encode i ++ p) ≡ some (i, p)
unfolding walk_at encode
walk_at-encode i p (tag_ok, small) = rw (
  append_assoc (tag_bytes i.tag) (tlv_format_len (length i.value) ++ i.value) p,
  append_assoc (tlv_format_len (length i.value)) i.value p,
  read_tag-tag_bytes i.tag (tlv_format_len (length i.value) ++ (i.value ++ p)) tag_ok,
  read_length-tlv_format_len (length i.value) (i.value ++ p) small,
  read_value-append i.tag i.value p,
)

-- `tlv_len_tag` is the number of bytes of an item whose size 16 bits hold.
pub tlv_len_tag-encode :
    (i : Item)
    → IsItem i
    → length (encode i) < 2 ^ 16
    → tlv_len_tag i.tag (length i.value) ≡ length (encode i)
unfolding tlv_len_tag encode tag_bytes put_uint16_be
tlv_len_tag-encode i h small = ground (
  arith,
  length-append (tag_bytes i.tag) (tlv_format_len (length i.value) ++ i.value),
  length-append (tlv_format_len (length i.value)) i.value,
)

pub walk_at-nil : walk_at [] ≡ none
unfolding walk_at read_tag
walk_at-nil = refl

-- What is left by a step that takes `n` bytes at least.
abbrev Within : ℕ → List ℕ → Option (ℕ × List ℕ) → Type 0
Within n p none = Unit
Within n p (some (x, rest)) = n + length rest ≤ length p

read_tag-length : (p : List ℕ) → Within 1 p (read_tag p)
unfolding read_tag second_byte
read_tag-length [] = tt
read_tag-length (tg ∷ []) = ground arith
read_tag-length (tg ∷ b ∷ p) = ground arith

read_length-length : (p : List ℕ) → Within 0 p (read_length p)
unfolding read_length short_length long_length second_byte
read_length-length [] = ground arith
read_length-length (a ∷ []) = ground arith
read_length-length (a ∷ b ∷ []) = ground arith
read_length-length (a ∷ b ∷ c ∷ p) = ground arith

-- What a walk returned is inside of `p`.
abbrev pub Inside : List ℕ → Option (Item × List ℕ) → Type 0
Inside p none = Unit
Inside p (some (i, rest)) = length i.value + length rest < length p

read_value-length :
    (tg : ℕ) (t : ℕ × List ℕ) (p : List ℕ) → length t.1 < length p → Inside p (read_value tg t)
unfolding read_value
read_value-length tg (len, q) p h = ground (arith, length-take len q, length-drop len q)

after_length :
    (p q : List ℕ) (tg : ℕ) (o : Option (ℕ × List ℕ))
    → length q < length p
    → Within 0 q o
    → Inside p (o >>= read_value tg)
after_length p q tg none h w = tt
after_length p q tg (some t) h w = read_value-length tg t p (omega arith)

after_tag :
    (p : List ℕ) (o : Option (ℕ × List ℕ))
    → Within 1 p o
    → Inside p (o >>= (λ t. read_length t.1 >>= read_value t.0))
after_tag p none w = tt
after_tag p (some (tg, q)) w =
    after_length p q tg (read_length q) (omega arith) (read_length-length q)

-- A walk reads a value inside the buffer: the value and what is left take at least one byte less
-- than there was.
pub walk_at-length : (p : List ℕ) → Inside p (walk_at p)
unfolding walk_at
walk_at-length p = after_tag p (read_tag p) (read_tag-length p)
