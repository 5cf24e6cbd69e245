-- ===== src/Container/Headers.antt =====
-- FidoAuth/pico-keys-sdk/src/fs/object_container.c: descriptors and the headers of records,
-- written against read.
use key_wallet.Base.{
  ℕ, ◌+◌, ◌^◌, ◌<◌, ◌≡◌, refl, sym, ap, ◌∙◌, true, ◌&&◌, List, [], ◌++◌, length, take, drop, leb,
  ◌==◌, arith, length-append, take-append, drop-append, drop-drop, append-nil,
}
use key_wallet.Bytes.{get_uint16_be, get_uint32_be, put_uint16_be, put_uint32_be}
use key_wallet.Bytes.Wide.{get_uint64_be, put_uint64_be}
use key_wallet.Bytes.RoundTrip.{uint16, uint32, uint64}
use key_wallet.Objects.Storage.{done}
use key_wallet.Container.Records.{
  Descriptor, RecordInfo, core_valid, descriptor_encode, descriptor_decode, sealed_header,
  sealed_matches, sealed_length_ok, record_info, record_header_parse, nonce_of,
}

-- The fields have the widths of the struct.
pub record IsDescriptor (o : Descriptor) : Type 0 where
  pub type_small : o.object_type < 2 ^ 16
  pub tag_small : o.object_tag < 2 ^ 16
  pub generation_small : o.generation < 2 ^ 32
  pub logical_small : o.logical_size < 2 ^ 32
  pub id_small : o.record_id < 2 ^ 64
  pub stored_small : o.stored_size < 2 ^ 32
  pub policy_small : o.policy_id < 2 ^ 16
  pub flags_small : o.flags < 2 ^ 16
  pub offset_small : o.extension_offset < 2 ^ 16
  pub extension_small : o.extension_size < 2 ^ 16
  pub group_small : o.transaction_group < 2 ^ 16

-- A descriptor with fields of their widths that was encoded is decoded to itself, whatever follows.
pub descriptor_decode-encode :
    (o : Descriptor) (rest : List ℕ)
    → IsDescriptor o
    → descriptor_decode (descriptor_encode o ++ rest) ≡ o
unfolding descriptor_decode descriptor_encode put_uint16_be put_uint32_be put_uint64_be
    get_uint16_be get_uint32_be get_uint64_be
descriptor_decode-encode o rest w =
    rw
      (
        uint16 o.object_type w.type_small,
        uint16 o.object_tag w.tag_small,
        uint32 o.generation w.generation_small,
        uint32 o.logical_size w.logical_small,
        uint64 o.record_id w.id_small,
        uint32 o.stored_size w.stored_small,
        uint16 o.policy_id w.policy_small,
        uint16 o.flags w.flags_small,
        uint16 o.extension_offset w.offset_small,
        uint16 o.extension_size w.extension_small,
        uint16 o.transaction_group w.group_small,
      )
      refl

sealed_header-length : (o : Descriptor) → length (sealed_header o) ≡ 40
unfolding sealed_header put_uint16_be put_uint32_be put_uint64_be
sealed_header-length o = refl

sealed_matches-header :
    (o : Descriptor) (rest : List ℕ)
    → IsDescriptor o
    → sealed_matches o (sealed_header o ++ rest) ≡ true
unfolding sealed_matches sealed_header put_uint16_be put_uint32_be put_uint64_be get_uint16_be
    get_uint32_be get_uint64_be
sealed_matches-header o rest w = ground (
  arith,
  uint32 o.generation w.generation_small,
  uint32 o.logical_size w.logical_small,
  uint64 o.record_id w.id_small,
  uint32 o.stored_size w.stored_small,
)

abbrev info_of : Descriptor → RecordInfo
info_of o = record {
  info_id = o.record_id;
  info_stored = o.stored_size;
  info_logical = o.logical_size;
  info_generation = o.generation;
  info_protection = o.protection;
  payload_offset = 40;
  tag_offset = 40 + o.stored_size;
}

record_info-header :
    (o : Descriptor) (rest : List ℕ)
    → IsDescriptor o
    → record_info (sealed_header o ++ rest) ≡ info_of o
unfolding record_info sealed_header put_uint16_be put_uint32_be put_uint64_be get_uint32_be
    get_uint64_be
record_info-header o rest w =
    rw
      (
        uint64 o.record_id w.id_small,
        uint32 o.stored_size w.stored_small,
        uint32 o.logical_size w.logical_small,
        uint32 o.generation w.generation_small,
      )
      refl

pub sealed_nonce :
    (o : Descriptor) (rest : List ℕ)
    → nonce_of (sealed_header o ++ rest) ≡ nonce_of (sealed_header o)
unfolding sealed_header put_uint16_be put_uint32_be put_uint64_be
sealed_nonce o rest = refl

drop_front : (a b : List ℕ) (n : ℕ) → length a ≡ n → drop n (a ++ b) ≡ b
drop_front a b n e = rw (sym e) (drop-append a b)

take_front : (a b : List ℕ) (n : ℕ) → length a ≡ n → take n (a ++ b) ≡ a
take_front a b n e = rw (sym e) (take-append a b)

-- The two parts behind the header.
module _ (o : Descriptor) (stored tag : List ℕ) (size : length stored ≡ o.stored_size)
    (tag_size : length tag ≡ 16) where
  abbrev sealed : List ℕ
  sealed = sealed_header o ++ (stored ++ tag)

  pub stored_part : take o.stored_size (drop 40 sealed) ≡ stored
  stored_part =
      ap (λ (b : List ℕ). take o.stored_size b)
        (drop_front (sealed_header o) (stored ++ tag) 40 (sealed_header-length o))
      ∙ take_front stored tag o.stored_size size

  pub tag_part : take 16 (drop (40 + o.stored_size) sealed) ≡ tag
  tag_part =
      ap (λ (b : List ℕ). take 16 b)
        (sym (drop-drop o.stored_size 40 sealed)
          ∙ ap (λ (b : List ℕ). drop o.stored_size b)
              (drop_front (sealed_header o) (stored ++ tag) 40 (sealed_header-length o))
          ∙ drop_front stored tag o.stored_size size)
      ∙ (ap (λ (b : List ℕ). take 16 b) (sym (append-nil tag)) ∙ take_front tag [] 16 tag_size)

  sealed-length : length sealed ≡ 56 + o.stored_size
  sealed-length = omega (
    arith,
    length-append (sealed_header o) (stored ++ tag),
    length-append stored tag,
    sealed_header-length o,
    size,
    tag_size,
  )

  -- A record as it is sealed is accepted under its descriptor.
  pub record_header_parse-sealed :
      IsDescriptor o
      → core_valid o ≡ true
      → o.stored_size + 56 < 2 ^ 32
      → record_header_parse sealed o ≡ done (info_of o)
  unfolding record_header_parse sealed_length_ok
  record_header_parse-sealed w valid small =
      let fits : (leb (40 + 16) (56 + o.stored_size)
            && leb (40 + o.stored_size + 16) 0xffffffff
            && ((56 + o.stored_size) == 40 + o.stored_size + 16))
          ≡ true =
        ground (arith, small) in
      rw
        (
          valid,
          sealed-length,
          fits,
          sealed_matches-header o (stored ++ tag) w,
          record_info-header o (stored ++ tag) w,
        )
        refl
