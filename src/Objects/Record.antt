-- ===== src/Objects/Record.antt =====
-- FidoAuth/pico-keys-sdk/src/fs/object_store.c: what is written is read back, and old handles are stale.
use key_wallet.Base.{
  ◌∙◌, ap, ℕ, ◌+◌, ◌*◌, ◌/◌, ◌%◌, ◌^◌, ◌≤◌, ◌<◌, ◌≡◌, refl, true, false, List, ◌++◌, some, ltb,
  length, take, drop, arith, length-append,
}
use key_wallet.Bytes.{put_uint16_be, put_uint32_be, get_uint16_be, get_uint32_be}
use key_wallet.Objects.{
  ObjectId, object_header_size, id_valid, header, header_matches, record_of, parse_header,
  parse_file, object_parse,
}
use key_wallet.Objects.Storage.{Files, done}

-- The fields of an identifier fit 16 bits, and its file is one that can exist.
pub record IsId (id : ObjectId) : Type 0 where
  pub namespace_small : id.namespace_id < 2 ^ 16
  pub type_small : id.object_type < 2 ^ 16
  pub fid_small : id.fid < 2 ^ 16
  pub valid : id_valid id ≡ true

header-length : (id : ObjectId) (g len : ℕ) → length (header id g len) ≡ 20
unfolding header put_uint16_be put_uint32_be
header-length id g len = refl

uint16 : (n : ℕ) → n < 2 ^ 16 → n / 256 % 256 * 256 + n % 256 ≡ n
uint16 n h = omega arith

uint32 :
    (n : ℕ)
    → n < 2 ^ 32
    → n / 0x1000000 % 256 * 0x1000000 + n / 0x10000 % 256 * 0x10000 + n / 256 % 256 * 256 + n % 256
      ≡ n
uint32 n h = omega arith

header_matches-header :
    (id : ObjectId) (g len : ℕ)
    → IsId id
    → 0 < g
    → g < 2 ^ 32
    → len + 20 < 2 ^ 32
    → header_matches id id.fid (20 + len) (header id g len) ≡ true
unfolding header_matches header put_uint16_be put_uint32_be get_uint16_be get_uint32_be
header_matches-header id g len v pos small len_small = ground (
  arith,
  uint16 id.namespace_id v.namespace_small,
  uint16 id.object_type v.type_small,
  uint16 id.fid v.fid_small,
  uint32 g small,
  uint32 len (omega arith),
)

record_of-header :
    (id : ObjectId) (g len : ℕ)
    → g < 2 ^ 32
    → len < 2 ^ 32
    → record_of (header id g len)
      ≡ record { payload_offset = 20; payload_size = len; generation = g }
unfolding record_of header put_uint16_be put_uint32_be get_uint32_be
record_of-header id g len small len_small = rw (uint32 g small, uint32 len len_small) refl

module _ ⦃files : Files⦄ where
  open files use {Store, File, search, has_data, get_size, read_at, fid_of}

  -- The file has these bytes and this identifier.
  pub record Holds (file : File) (bytes : List ℕ) (fid : ℕ) (s : Store) : Type 0 where
    pub written : has_data file s ≡ true
    pub size : get_size file s ≡ length bytes
    pub named : fid_of file s ≡ fid
    pub reads :
        (offset len : ℕ)
        → offset + len ≤ length bytes
        → read_at file offset len s ≡ done (take len (drop offset bytes))

  pub header-append-length :
      (id : ObjectId) (g : ℕ) (payload : List ℕ)
      → length (header id g (length payload) ++ payload) ≡ 20 + length payload
  header-append-length id g payload =
      length-append (header id g (length payload)) payload
      ∙ ap (λ n. n + length payload) (header-length id g (length payload))

  take-header :
      (id : ObjectId) (g len : ℕ) (payload : List ℕ)
      → take 20 (drop 0 (header id g len ++ payload)) ≡ header id g len
  unfolding header put_uint16_be put_uint32_be
  take-header id g len payload = refl

  parse_header-header :
      (id : ObjectId) (g len : ℕ)
      → IsId id
      → 0 < g
      → g < 2 ^ 32
      → len + 20 < 2 ^ 32
      → parse_header id id.fid (20 + len) (done (header id g len))
        ≡ done (record { payload_offset = 20; payload_size = len; generation = g })
  unfolding parse_header
  parse_header-header id g len v pos small len_small =
      rw
        (
          header_matches-header id g len v pos small len_small,
          record_of-header id g len small (omega arith),
        )
        refl

  -- A file that holds the record of an object, as it is written, is parsed to its size and its
  -- generation.
  pub object_parse-header :
      (id : ObjectId) (g : ℕ) (payload : List ℕ) (file : File) (s : Store)
      → IsId id
      → 0 < g
      → g < 2 ^ 32
      → length payload + 20 < 2 ^ 32
      → Holds file (header id g (length payload) ++ payload) id.fid s
      → object_parse id (some file) s
        ≡ done (record { payload_offset = 20; payload_size = length payload; generation = g })
  unfolding object_parse parse_file
  object_parse-header id g payload file s v pos small len_small h =
      let n = header-append-length id g payload in
      let size : get_size file s ≡ 20 + length payload = h.size ∙ n in
      let large : ltb (20 + length payload) object_header_size ≡ false = ground arith in
      rw
        (
          v.valid,
          h.written,
          size,
          large,
          h.named,
          h.reads 0 20 (omega (arith, n)),
          take-header id g (length payload) payload,
          parse_header-header id g (length payload) v pos small len_small,
        )
        refl
