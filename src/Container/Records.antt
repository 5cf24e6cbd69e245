-- ===== src/Container/Records.antt =====
-- FidoAuth/pico-keys-sdk/src/fs/object_container.c: descriptors of objects, the headers of their
-- records, and sealing. Null pointers of callers are not modelled; a buffer for results is its free
-- room, and what is appended to it is the result.
use key_wallet.Base.{
  ℕ, ◌+◌, Bool, true, false, not, ◌&&◌, bit_and, List, [], ◌∷◌, ◌++◌, length, take, drop, get_or,
  list_eq, leb, ◌==◌,
}
use key_wallet.Bytes.{
  wrong_data, wrong_length, get_uint16_be, get_uint32_be, put_uint16_be, put_uint32_be,
}
use key_wallet.Bytes.Wide.{get_uint64_be, put_uint64_be}
use key_wallet.Objects.Storage.{Outcome, done, ◌>>=◌, ◌>>◌, check}

-- `file_object_descriptor_t`
pub record Descriptor : Type 0 where
  pub object_type : ℕ
  pub object_tag : ℕ
  pub generation : ℕ
  pub logical_size : ℕ
  pub record_id : ℕ
  pub stored_size : ℕ
  pub policy_id : ℕ
  pub key_domain : ℕ
  pub protection : ℕ
  pub flags : ℕ
  pub extension_offset : ℕ
  pub extension_size : ℕ
  pub transaction_group : ℕ

-- `file_object_manifest_t`, of whose descriptors the code here reads the first one.
pub record Manifest : Type 0 where
  pub manifest_flags : ℕ
  pub namespace_id : ℕ
  pub container_kind : ℕ
  pub container_id : ℕ
  pub manifest_generation : ℕ
  pub previous_generation : ℕ
  pub extensions_offset : ℕ
  pub extensions_size : ℕ
  pub total_size : ℕ
  pub object_count : ℕ
  pub has_object : Bool
  pub object : Descriptor

-- `file_object_record_info_t`
pub record RecordInfo : Type 0 where
  pub info_id : ℕ
  pub info_stored : ℕ
  pub info_logical : ℕ
  pub info_generation : ℕ
  pub info_protection : ℕ
  pub payload_offset : ℕ
  pub tag_offset : ℕ

-- `file_object_record_identity_t`
pub record Identity : Type 0 where
  pub of_namespace : ℕ
  pub of_kind : ℕ
  pub of_container : ℕ
  pub of_type : ℕ
  pub of_tag : ℕ
  pub of_generation : ℕ
  pub of_logical : ℕ
  pub of_policy : ℕ
  pub policy_hash : List ℕ
  pub of_domain : ℕ
  pub of_protection : ℕ
  pub of_flags : ℕ
  pub of_record : ℕ

-- `file_object_record_protector_t`: identity, nonce, additional data, then plaintext or stored bytes
-- and tag.
pub record Protector : Type 0 where
  pub seal : Identity → List ℕ → List ℕ → List ℕ → Outcome (List ℕ × List ℕ)
  pub unseal : Identity → List ℕ → List ℕ → List ℕ → List ℕ → Outcome (List ℕ)

abbrev pub sealed_magic : List ℕ
sealed_magic = 0x50 ∷ 0x4b ∷ 0x4f ∷ 0x52 ∷ []

abbrev pub sealed_format_version : ℕ
sealed_format_version = 1

abbrev pub sealed_header_size : ℕ
sealed_header_size = 40

abbrev pub sealed_tag_size : ℕ
sealed_tag_size = 16

abbrev pub nonce_offset : ℕ
nonce_offset = 28

abbrev pub nonce_size : ℕ
nonce_size = 12

abbrev pub flag_inline : ℕ
flag_inline = 1

abbrev pub flag_transaction_group : ℕ
flag_transaction_group = 0x10

-- `~FILE_OBJECT_FLAG_MASK` on 16 bits
abbrev pub unknown_flags : ℕ
unknown_flags = 0xffc0

abbrev pub same_truth : Bool → Bool → Bool
same_truth true b = b
same_truth false b = not b

unfoldable pub core_valid : Descriptor → Bool
core_valid o =
    not (o.object_type == 0)
    && not (o.object_type == 0xffff)
    && not (o.generation == 0)
    && not (o.record_id == 0)
    && leb 1 o.protection
    && leb o.protection 3
    && (bit_and o.flags unknown_flags == 0)
    && (bit_and o.flags flag_inline == 0)
    && same_truth (bit_and o.flags flag_transaction_group == 0) (o.transaction_group == 0)
    && same_truth (o.extension_offset == 0) (o.extension_size == 0)

unfoldable pub descriptor_encode : Descriptor → List ℕ
descriptor_encode o =
    put_uint16_be o.object_type
    ++ (put_uint16_be o.object_tag
        ++ (put_uint32_be o.generation
            ++ (put_uint32_be o.logical_size
                ++ (put_uint64_be o.record_id
                    ++ (put_uint32_be o.stored_size
                        ++ (put_uint16_be o.policy_id
                            ++ (o.key_domain
                                ∷ o.protection
                                ∷ (put_uint16_be o.flags
                                    ++ (put_uint16_be o.extension_offset
                                        ++ (put_uint16_be o.extension_size
                                            ++ put_uint16_be o.transaction_group))))))))))

unfoldable pub descriptor_decode : List ℕ → Descriptor
descriptor_decode b = record {
  object_type = get_uint16_be b;
  object_tag = get_uint16_be (drop 2 b);
  generation = get_uint32_be (drop 4 b);
  logical_size = get_uint32_be (drop 8 b);
  record_id = get_uint64_be (drop 12 b);
  stored_size = get_uint32_be (drop 20 b);
  policy_id = get_uint16_be (drop 24 b);
  key_domain = get_or b 26 0;
  protection = get_or b 27 0;
  flags = get_uint16_be (drop 28 b);
  extension_offset = get_uint16_be (drop 30 b);
  extension_size = get_uint16_be (drop 32 b);
  transaction_group = get_uint16_be (drop 34 b);
}

unfoldable pub sealed_header : Descriptor → List ℕ
sealed_header o =
    sealed_magic
    ++ (sealed_format_version
        ∷ o.protection
        ∷ (put_uint16_be sealed_header_size
            ++ (put_uint64_be o.record_id
                ++ (put_uint32_be o.stored_size
                    ++ (put_uint32_be o.logical_size
                        ++ (put_uint32_be o.generation
                            ++ (put_uint64_be o.record_id ++ put_uint32_be o.generation)))))))

unfoldable pub record_header_build : Descriptor → Outcome (List ℕ)
record_header_build o = do check (core_valid o) wrong_data; done (sealed_header o)

-- The long test of `file_object_record_header_parse`, negated.
unfoldable pub sealed_matches : Descriptor → List ℕ → Bool
sealed_matches o r =
    list_eq (take 4 r) sealed_magic
    && (get_or r 4 0 == sealed_format_version)
    && (get_or r 5 0 == o.protection)
    && (get_uint16_be (drop 6 r) == sealed_header_size)
    && (get_uint64_be (drop 8 r) == o.record_id)
    && (get_uint32_be (drop 16 r) == o.stored_size)
    && (get_uint32_be (drop 20 r) == o.logical_size)
    && (get_uint32_be (drop 24 r) == o.generation)
    && (get_uint64_be (drop 28 r) == get_uint64_be (drop 8 r))
    && (get_uint32_be (drop 36 r) == get_uint32_be (drop 24 r))

-- `size_t` has 32 bits on the device.
unfoldable pub sealed_length_ok : Descriptor → List ℕ → Bool
sealed_length_ok o r =
    leb (sealed_header_size + sealed_tag_size) (length r)
    && leb (sealed_header_size + o.stored_size + sealed_tag_size) 0xffffffff
    && (length r == sealed_header_size + o.stored_size + sealed_tag_size)

unfoldable pub record_info : List ℕ → RecordInfo
record_info r = record {
  info_id = get_uint64_be (drop 8 r);
  info_stored = get_uint32_be (drop 16 r);
  info_logical = get_uint32_be (drop 20 r);
  info_generation = get_uint32_be (drop 24 r);
  info_protection = get_or r 5 0;
  payload_offset = sealed_header_size;
  tag_offset = sealed_header_size + get_uint32_be (drop 16 r);
}

unfoldable pub record_header_parse : List ℕ → Descriptor → Outcome RecordInfo
record_header_parse r o = do
  check (core_valid o) wrong_data
  check (sealed_length_ok o r) wrong_length
  check (sealed_matches o r) wrong_data
  done (record_info r)

abbrev pub identity_of : Manifest → List ℕ → Identity
identity_of m hash = record {
  of_namespace = m.namespace_id;
  of_kind = m.container_kind;
  of_container = m.container_id;
  of_type = m.object.object_type;
  of_tag = m.object.object_tag;
  of_generation = m.object.generation;
  of_logical = m.object.logical_size;
  of_policy = m.object.policy_id;
  policy_hash = hash;
  of_domain = m.object.key_domain;
  of_protection = m.object.protection;
  of_flags = m.object.flags;
  of_record = m.object.record_id;
}

-- The additional data of an identity, of 55 bytes.
unfoldable pub aad_of : Identity → List ℕ
aad_of i =
    sealed_magic
    ++ (sealed_format_version
        ∷ (put_uint16_be i.of_namespace
            ++ (put_uint16_be i.of_kind
                ++ (put_uint32_be i.of_container
                    ++ (put_uint16_be i.of_type
                        ++ (put_uint16_be i.of_tag
                            ++ (put_uint32_be i.of_generation
                                ++ (put_uint32_be i.of_logical
                                    ++ (put_uint16_be i.of_policy
                                        ++ (i.policy_hash
                                            ++ (i.of_domain
                                                ∷ i.of_protection
                                                ∷ (put_uint16_be i.of_flags
                                                    ++ put_uint64_be i.of_record))))))))))))

unfoldable pub identity_build : Manifest → List ℕ → Outcome Identity
identity_build m hash = do
  check (m.has_object && core_valid m.object) wrong_data
  done (identity_of m hash)

abbrev pub nonce_of : List ℕ → List ℕ
nonce_of r = take nonce_size (drop nonce_offset r)

unfoldable pub record_seal : Manifest → List ℕ → Protector → List ℕ → ℕ → Outcome (List ℕ)
record_seal m hash p plaintext room = do
  check
      (m.has_object
        && (length plaintext == m.object.logical_size)
        && (length plaintext == m.object.stored_size))
      wrong_length
  let size = sealed_header_size + length plaintext + sealed_tag_size
  check (leb size 0xffffffff && leb size room) wrong_length
  identity ← identity_build m hash
  h ← record_header_build m.object
  out ← p.seal identity (nonce_of h) (aad_of identity) plaintext
  check (length out.0 == length plaintext) wrong_length
  done (h ++ (out.0 ++ out.1))

unfoldable pub record_unseal : Manifest → List ℕ → Protector → List ℕ → ℕ → Outcome (List ℕ)
record_unseal m hash p r room = do
  check
      (m.has_object
        && leb m.object.logical_size room
        && (m.object.logical_size == m.object.stored_size))
      wrong_length
  info ← record_header_parse r m.object
  identity ← identity_build m hash
  out ←
      p.unseal identity (nonce_of r) (aad_of identity)
        (take info.info_stored (drop info.payload_offset r))
        (take sealed_tag_size (drop info.tag_offset r))
  check (length out == info.info_logical) wrong_length
  done out
