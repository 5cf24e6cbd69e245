-- ===== src/Txn/Headers.antt =====
-- FidoAuth/pico-keys-sdk/src/fs/object_store_txn.c: the headers as they are written against the tests
-- of them.
use key_wallet.Base.{
  ℕ, zero, suc, ◌+◌, ◌-◌, ◌^◌, ◌≤◌, ◌<◌, ◌≡◌, ◌≢◌, refl, sym, ap, ◌∙◌, true, ◌&&◌, bit_and, List,
  [], ◌∷◌, ◌++◌, length, take, drop, leb, ◌==◌, arith, take-append, drop-append, append-nil,
}
use key_wallet.Bytes.{put_uint16_be, put_uint32_be, get_uint16_be, get_uint32_be}
use key_wallet.Bytes.RoundTrip.{uint16, uint32}
use key_wallet.Txn.{Layout, at_slot, RecordRef, record_header, commit_header}
use key_wallet.Txn.Recover.{record_matches, commit_matches, commit_generation, ref_of}

pub record IsLayout (l : Layout) : Type 0 where
  pub namespace_small : l.namespace_id < 2 ^ 16
  pub type_small : l.object_type < 2 ^ 16
  pub object_small : l.object_id < 2 ^ 32
  pub record_small : (slot : ℕ) → at_slot slot l.record_fid < 2 ^ 16
  -- No file of the object is the file of the metadata, EF_META, which every deletion writes.
  pub commit_not_meta : (slot : ℕ) → at_slot slot l.commit_fid ≢ 0xe010
  pub record_not_meta : (slot : ℕ) → at_slot slot l.record_fid ≢ 0xe010

pub record IsRef (r : RecordRef) : Type 0 where
  pub id_small : r.ref_id < 2 ^ 32
  pub fid_small : r.ref_fid < 2 ^ 16
  pub flags_known : bit_and r.ref_flags 0xfe ≡ 0
  pub size_small : r.ref_size < 2 ^ 32
  pub tag_size : length r.ref_tag ≡ 16

pub commit_matches-header :
    (l : Layout) (slot g : ℕ) (r : RecordRef) (tag : List ℕ)
    → IsLayout l
    → IsRef r
    → 0 < g
    → g < 2 ^ 32
    → commit_matches l slot (commit_header l slot g r ++ tag) ≡ true
unfolding commit_matches commit_header put_uint16_be put_uint32_be get_uint16_be get_uint32_be
commit_matches-header l slot g r tag v w pos small = ground (
  arith,
  uint16 l.namespace_id v.namespace_small,
  uint16 l.object_type v.type_small,
  uint32 l.object_id v.object_small,
  uint32 g small,
  w.flags_known,
)

pub commit_generation-header :
    (l : Layout) (slot g : ℕ) (r : RecordRef) (tag : List ℕ)
    → g < 2 ^ 32
    → commit_generation (commit_header l slot g r ++ tag) ≡ g
unfolding commit_generation commit_header put_uint16_be put_uint32_be get_uint32_be
commit_generation-header l slot g r tag small = uint32 g small

pub take_tag : (a b : List ℕ) → length a ≡ 16 → take 16 (a ++ b) ≡ a
take_tag a b e = rw (sym e) (take-append a b)

pub ref_of-header :
    (l : Layout) (slot g : ℕ) (r : RecordRef) (tag : List ℕ)
    → IsRef r
    → ref_of (commit_header l slot g r ++ tag) ≡ r
unfolding ref_of commit_header put_uint16_be put_uint32_be get_uint16_be get_uint32_be
ref_of-header l slot g r tag w =
    rw
      (
        uint32 r.ref_id w.id_small,
        uint16 r.ref_fid w.fid_small,
        uint32 r.ref_size w.size_small,
        take_tag r.ref_tag tag w.tag_size,
      )
      refl

pub commit_header-length :
    (l : Layout) (slot g : ℕ) (r : RecordRef)
    → length r.ref_tag ≡ 16
    → length (commit_header l slot g r) ≡ 48
unfolding commit_header put_uint16_be put_uint32_be
commit_header-length l slot g r e = rw e refl

pub record_header-length :
    (l : Layout) (slot g id len : ℕ) → length (record_header l slot g id len) ≡ 32
unfolding record_header put_uint16_be put_uint32_be
record_header-length l slot g id len = refl

pub record_matches-header :
    (l : Layout) (g : ℕ) (r : RecordRef)
    → IsLayout l
    → IsRef r
    → g < 2 ^ 32
    → record_matches l g r.ref_slot r (record_header l r.ref_slot g r.ref_id r.ref_size) ≡ true
unfolding record_matches record_header put_uint16_be put_uint32_be get_uint16_be get_uint32_be
record_matches-header l g r v w small = ground (
  arith,
  uint16 l.namespace_id v.namespace_small,
  uint16 l.object_type v.type_small,
  uint32 l.object_id v.object_small,
  uint32 g small,
  uint32 r.ref_id w.id_small,
  uint32 r.ref_size w.size_small,
  uint16 (at_slot r.ref_slot l.record_fid) (v.record_small r.ref_slot),
)

pub take_front : (a b : List ℕ) (n : ℕ) → length a ≡ n → take n (drop 0 (a ++ b)) ≡ a
take_front a b n e = rw (sym e) (take-append a b)

pub take_whole : (a : List ℕ) (n : ℕ) → length a ≡ n → take n (drop 0 a) ≡ a
take_whole a n e = ap (λ (b : List ℕ). take n b) (sym (append-nil a)) ∙ take_front a [] n e

pub drop_front : (a b : List ℕ) (n : ℕ) → length a ≡ n → drop n (a ++ b) ≡ b
drop_front a b n e = rw (sym e) (drop-append a b)

pub take_within :
    (len offset : ℕ) (a b : List ℕ)
    → offset + len ≤ length a
    → take len (drop offset (a ++ b)) ≡ take len (drop offset a)
take_within zero offset a b h = refl
take_within (suc len) offset [] b h = absurd (omega arith)
take_within (suc len) zero (x ∷ a) b h =
    ap (λ (l : List ℕ). x ∷ l) (take_within len zero a b (omega arith))
take_within (suc len) (suc offset) (x ∷ a) b h = take_within (suc len) offset a b (omega arith)

pub fits :
    {size len : ℕ}
    → size ≡ len
    → len + 48 < 2 ^ 32
    → (leb size (0xffffffff - 32 - 16) && ((48 + len) == 32 + size + 16)) ≡ true
fits e h = ground arith
