-- ===== src/Txn.antt =====
-- FidoAuth/pico-keys-sdk/src/fs/object_store_txn.c: objects that survive a cut-off. Two slots, each
-- with a record file (the payload) and a commit file; the commit with the highest generation counts.
-- This file has the layout, the authenticator and the two headers. Null pointers of the callers are
-- not modelled.
pub mod Recover
pub mod Write
pub mod Frame
pub mod Crash
pub mod Disk
pub mod Replace
pub mod Mac
pub mod Progress
pub mod Ending
pub mod Parts
pub mod Atomic
pub mod Handles
pub mod Open
pub mod Draw
pub mod Refines
pub mod Smooth
pub mod First
pub mod Headers
pub mod Valid
use key_wallet.Base.{
  ℕ, zero, suc, ◌+◌, ◌-◌, Bool, true, false, not, ◌&&◌, ◌||◌, bit_or, bit_xor, List, [], ◌∷◌, ◌++◌,
  Option, none, some, ltb, ◌==◌, if◌then◌else◌, min, length, replicate,
}
use key_wallet.Bytes.{put_uint16_be, put_uint32_be}
use key_wallet.Objects.Storage.{Files, Outcome, failed, done, ◌>>=◌}

-- `file_object_txn_layout_t`; the arrays of two are pairs.
pub record Layout : Type 0 where
  pub namespace_id : ℕ
  pub object_type : ℕ
  pub object_id : ℕ
  pub record_fid : ℕ × ℕ
  pub commit_fid : ℕ × ℕ

-- `fids[slot]`, for the slots 0 and 1
abbrev pub at_slot : ℕ → ℕ × ℕ → ℕ
at_slot zero fids = fids.0
at_slot (suc slot) fids = fids.1

-- `file_object_txn_state_t`
pub record TxnState : Type 0 where
  pub generation : ℕ
  pub record_id : ℕ
  pub payload_size : ℕ
  pub commit_slot : ℕ
  pub record_slot : ℕ
  pub deleted : Bool

-- `file_object_authenticator_t`. What it keeps behind `ctx` from `start` to `finish` is a session.
pub record Authenticator : Type 1 where
  pub Session : Type 0
  pub start : Outcome Session
  pub update : List ℕ → Session → Outcome Session
  pub finish : Session → Outcome (List ℕ)

abbrev pub auth_tag_size : ℕ
auth_tag_size = 16

abbrev pub txn_format_version : ℕ
txn_format_version = 1

abbrev pub record_header_size : ℕ
record_header_size = 32

abbrev pub commit_header_size : ℕ
commit_header_size = 48

abbrev pub commit_size : ℕ
commit_size = 64

abbrev pub commit_marker : ℕ
commit_marker = 0x7f

abbrev pub flag_deleted : ℕ
flag_deleted = 1

abbrev pub read_chunk_size : ℕ
read_chunk_size = 256

abbrev pub no_slot : ℕ
no_slot = 0xff

abbrev pub record_magic : List ℕ
record_magic = 0x50 ∷ 0x4b ∷ 0x52 ∷ 0x32 ∷ []

abbrev pub commit_magic : List ℕ
commit_magic = 0x50 ∷ 0x4b ∷ 0x43 ∷ 0x32 ∷ []

abbrev pub empty_tag : List ℕ
empty_tag = replicate auth_tag_size 0

abbrev pub contains_fid : ℕ → List ℕ → Bool
contains_fid fid [] = false
contains_fid fid (x ∷ xs) = (fid == x) || contains_fid fid xs

-- `difference |= left[i] ^ right[i]` over the bytes of two tags.
unfoldable pub tag_difference : ℕ → List ℕ → List ℕ → ℕ
tag_difference d [] right = d
tag_difference d (x ∷ left) [] = d
tag_difference d (x ∷ left) (y ∷ right) = tag_difference (bit_or d (bit_xor x y)) left right

unfoldable pub tag_equal : List ℕ → List ℕ → Bool
tag_equal left right = tag_difference 0 left right == 0

-- The header that `file_object_txn_write_record` writes.
unfoldable pub record_header : Layout → ℕ → ℕ → ℕ → ℕ → List ℕ
record_header layout slot generation record_id len =
    record_magic
    ++ (txn_format_version
        ∷ record_header_size
        ∷ slot
        ∷ 0
        ∷ (put_uint16_be layout.namespace_id
            ++ (put_uint16_be layout.object_type
                ++ (put_uint32_be layout.object_id
                    ++ (put_uint32_be generation
                        ++ (put_uint32_be record_id
                            ++ (put_uint32_be len
                                ++ (put_uint16_be (at_slot slot layout.record_fid)
                                    ++ (0 ∷ 0 ∷ [])))))))))

-- What a commit says of its record.
pub record RecordRef : Type 0 where
  pub ref_id : ℕ
  pub ref_fid : ℕ
  pub ref_slot : ℕ
  pub ref_flags : ℕ
  pub ref_size : ℕ
  pub ref_tag : List ℕ

abbrev pub deleted_ref : RecordRef
deleted_ref = record {
  ref_id = 0;
  ref_fid = 0;
  ref_slot = no_slot;
  ref_flags = flag_deleted;
  ref_size = 0;
  ref_tag = empty_tag;
}

-- The first 48 bytes that `file_object_txn_write_commit` writes.
unfoldable pub commit_header : Layout → ℕ → ℕ → RecordRef → List ℕ
commit_header layout slot generation r =
    commit_magic
    ++ (txn_format_version
        ∷ commit_header_size
        ∷ slot
        ∷ commit_marker
        ∷ (put_uint16_be layout.namespace_id
            ++ (put_uint16_be layout.object_type
                ++ (put_uint32_be layout.object_id
                    ++ (put_uint32_be generation
                        ++ (put_uint32_be r.ref_id
                            ++ (put_uint16_be r.ref_fid
                                ++ (r.ref_slot
                                    ∷ r.ref_flags
                                    ∷ (put_uint32_be r.ref_size ++ r.ref_tag)))))))))

module _ (auth : Authenticator) where
  open auth use {Session, start, update, finish}

  abbrev pub update_some : List ℕ → Session → Outcome Session
  update_some [] x = done x
  update_some (b ∷ bs) x = update (b ∷ bs) x

  -- `file_object_txn_auth_buffer`; the second buffer may be empty.
  unfoldable pub auth_buffer : List ℕ → List ℕ → Outcome (List ℕ)
  auth_buffer first second = do x ← start; y ← update first x; z ← update_some second y; finish z

module _ ⦃files : Files⦄ where
  open files use {Store, File, read_at, is_static}

  -- The loop of `file_object_txn_layout_valid`, with the identifiers that came before.
  unfoldable pub fids_valid : List ℕ → List ℕ → Bool
  fids_valid seen [] = true
  fids_valid seen (fid ∷ fids) =
      not (fid == 0)
      && not (fid == 0xffff)
      && not (is_static fid)
      && not (contains_fid fid seen)
      && fids_valid (fid ∷ seen) fids

  unfoldable pub layout_valid : Layout → Bool
  layout_valid l =
      fids_valid [] (l.record_fid.0 ∷ l.record_fid.1 ∷ l.commit_fid.0 ∷ l.commit_fid.1 ∷ [])

  module _ (auth : Authenticator) where
    open auth use {Session, start, update, finish}

    -- The loop of `file_object_txn_auth_record`, on fuel: `left` bytes of the payload from `offset` on.
    unfoldable pub absorb : ℕ → File → ℕ → ℕ → Store → Session → Outcome Session
    absorb zero file offset left s x = done x
    absorb (suc fuel) file offset zero s x = done x
    absorb (suc fuel) file offset (suc left) s x = do
      let chunk = min read_chunk_size (suc left)
      bytes ← read_at file (record_header_size + offset) chunk s
      y ← update bytes x
      absorb fuel file (offset + chunk) (suc left - chunk) s y

    -- The size of the payload is enough fuel.
    unfoldable pub auth_record : File → List ℕ → ℕ → Store → Outcome (List ℕ)
    auth_record file h payload_size s = do
      x ← start
      y ← update h x
      z ← absorb payload_size file 0 payload_size s y
      finish z
