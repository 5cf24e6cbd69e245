-- ===== src/Txn/Valid.antt =====
-- FidoAuth/pico-keys-sdk/src/fs/object_store_txn.c: the two writers against the two checks.
use key_wallet.Base.{
  ℕ, ◌+◌, ◌^◌, ◌<◌, ◌≡◌, refl, sym, ap, ◌∙◌, true, false, List, [], ◌++◌, some, length, take, drop,
  leb, arith, length-append, drop-append, drop-drop, append_assoc,
}
use key_wallet.Objects.Storage.{Files, done}
use key_wallet.Txn.{
  Layout, at_slot, Authenticator, RecordRef, record_header, commit_header, auth_record, tag_equal,
  tag_difference, deleted_ref,
}
use key_wallet.Txn.Recover.{
  state_of, check_commit, parse_commit, parse_commit_file, validate_ref, validate_record,
  is_deleted, is_deleted_ref, is_record_ref, validate_file, validate_tags, record_file_ok,
}
use key_wallet.Txn.Headers.{
  IsLayout, IsRef, commit_matches-header, commit_generation-header, ref_of-header,
  commit_header-length, record_header-length, record_matches-header, take_front, take_whole,
  drop_front, take_within, fits,
}
use key_wallet.Txn.Disk.{Contains}
use key_wallet.Txn.Mac.{HasPayload, IsMac, auth_buffer-mac, auth_record-mac, tag_equal_refl}

module _ ⦃files : Files⦄ (l : Layout) (auth : Authenticator) (m : IsMac auth) (v : IsLayout l) where
  open files use {Store, File, search, has_data, get_size, read_at}

  -- A commit as it is written is checked down to its reference.
  check_commit-header :
      (slot g : ℕ) (r : RecordRef) (s : Store)
      → IsRef r
      → 0 < g
      → g < 2 ^ 32
      → validate_ref l auth g r s ≡ done tt
      → check_commit l auth slot
          (commit_header l slot g r ++ m.mac (commit_header l slot g r ++ []))
          s
        ≡ done (state_of slot g r)
  unfolding check_commit
  check_commit-header slot g r s w pos small valid =
      let h = commit_header l slot g r in
      let tag = m.mac (h ++ []) in
      let n = commit_header-length l slot g r w.tag_size in
      rw
        (
          commit_matches-header l slot g r tag v w pos small,
          take_front h tag 48 n,
          auth_buffer-mac auth m h [],
          drop_front h tag 48 n,
          tag_equal_refl tag,
          commit_generation-header l slot g r tag small,
          ref_of-header l slot g r tag w,
          valid,
        )
        refl

  pub parse_commit-header :
      (slot g : ℕ) (r : RecordRef) (s : Store)
      → IsRef r
      → 0 < g
      → g < 2 ^ 32
      → validate_ref l auth g r s ≡ done tt
      → Contains
          (at_slot slot l.commit_fid)
          (commit_header l slot g r ++ m.mac (commit_header l slot g r ++ []))
          s
      → parse_commit l auth slot s ≡ done (state_of slot g r)
  unfolding parse_commit parse_commit_file
  parse_commit-header slot g r s w pos small valid c =
      let h = commit_header l slot g r in
      let tag = m.mac (h ++ []) in
      let n = commit_header-length l slot g r w.tag_size in
      let whole : length (h ++ tag) ≡ 64 =
        omega (arith, length-append h tag, n, m.tag_length (h ++ [])) in
      rw
        (
          c.found,
          c.written,
          c.size ∙ whole,
          c.reads 0 64 (omega (arith, whole)),
          take_whole (h ++ tag) 64 whole,
        )
        (check_commit-header slot g r s w pos small valid)

  -- The reads of a record file that is a header of 32 bytes, the payload and a tag.
  module _ (fid : ℕ) (h payload tag : List ℕ) (s : Store) (n : length h ≡ 32) (k : length tag ≡ 16)
      (c : Contains fid ((h ++ payload) ++ tag) s) where
    whole : length ((h ++ payload) ++ tag) ≡ 48 + length payload
    whole = omega (arith, length-append (h ++ payload) tag, length-append h payload, n, k)

    reads_header : read_at c.file 0 32 s ≡ done h
    reads_header =
        c.reads 0 32 (omega (arith, whole))
        ∙ ap done (rw (append_assoc h payload tag) (take_front h (payload ++ tag) 32 n))

    behind :
        (offset : ℕ) → drop (32 + offset) ((h ++ payload) ++ tag) ≡ drop offset (payload ++ tag)
    behind offset =
        sym (drop-drop offset 32 ((h ++ payload) ++ tag))
        ∙ ap (λ (b : List ℕ). drop offset b)
            (rw (append_assoc h payload tag) (drop_front h (payload ++ tag) 32 n))

    pub reads_payload : HasPayload auth m c.file payload s
    reads_payload offset len fits =
        c.reads (32 + offset) len (omega (arith, whole))
        ∙ ap done (
            ap (λ (b : List ℕ). take len b) (behind offset)
            ∙ take_within len offset payload tag fits)

    reads_tag : read_at c.file (32 + length payload) 16 s ≡ done tag
    reads_tag =
        c.reads (32 + length payload) 16 (omega (arith, whole))
        ∙ ap done (
            ap (λ (b : List ℕ). take 16 b) (behind (length payload) ∙ drop-append payload tag)
            ∙ take_whole tag 16 k)

  -- A record as it is written is accepted under the reference to it.
  module _ (g : ℕ) (r : RecordRef) (payload : List ℕ) (s : Store) (w : IsRef r) (small : g < 2 ^ 32)
      (size_ok : r.ref_size ≡ length payload) (size_small : length payload + 48 < 2 ^ 32)
      (tag_ok : m.mac (record_header l r.ref_slot g r.ref_id r.ref_size ++ payload)
        ≡ r.ref_tag) where
    abbrev bytes : List ℕ
    bytes = (record_header l r.ref_slot g r.ref_id r.ref_size ++ payload) ++ r.ref_tag

    validate_tags-header :
        (c : Contains (at_slot r.ref_slot l.record_fid) bytes s)
        → validate_tags l auth c.file r (record_header l r.ref_slot g r.ref_id r.ref_size) s
          ≡ done tt
    unfolding validate_tags
    validate_tags-header c =
        let h = record_header l r.ref_slot g r.ref_id r.ref_size in
        let n = record_header-length l r.ref_slot g r.ref_id r.ref_size in
        let fid = at_slot r.ref_slot l.record_fid in
        rw
          (
            ap (λ (k : ℕ). auth_record auth c.file h k s) size_ok,
            auth_record-mac auth m c.file h payload s
                (reads_payload fid h payload r.ref_tag s n w.tag_size c),
            ap (λ (k : ℕ). read_at c.file (32 + k) 16 s) size_ok,
            reads_tag fid h payload r.ref_tag s n w.tag_size c,
            tag_ok,
            tag_equal_refl r.ref_tag,
          )
          refl

    validate_file-header :
        (c : Contains (at_slot r.ref_slot l.record_fid) bytes s)
        → validate_file l auth g r (some c.file) s ≡ done tt
    unfolding validate_file record_file_ok
    validate_file-header c =
        let h = record_header l r.ref_slot g r.ref_id r.ref_size in
        let n = record_header-length l r.ref_slot g r.ref_id r.ref_size in
        let fid = at_slot r.ref_slot l.record_fid in
        let size : get_size c.file s ≡ 48 + length payload =
          c.size ∙ whole fid h payload r.ref_tag s n w.tag_size c in
        rw
          (
            c.written,
            size,
            fits size_ok size_small,
            reads_header fid h payload r.ref_tag s n w.tag_size c,
            record_matches-header l g r v w small,
          )
          (validate_tags-header c)

    validate_record-header :
        leb r.ref_slot 1 ≡ true
        → Contains (at_slot r.ref_slot l.record_fid) bytes s
        → validate_record l auth g r s ≡ done tt
    unfolding validate_record
    validate_record-header slot_ok c = rw (slot_ok, c.found) (validate_file-header c)

    pub validate_ref-header :
        is_deleted r ≡ false
        → leb r.ref_slot 1 ≡ true
        → is_record_ref l r ≡ true
        → Contains (at_slot r.ref_slot l.record_fid) bytes s
        → validate_ref l auth g r s ≡ done tt
    unfolding validate_ref
    validate_ref-header live slot_ok own c = rw (live, own) (validate_record-header slot_ok c)

  -- The reference of a deletion is accepted.
  pub validate_ref-deleted : (g : ℕ) (s : Store) → validate_ref l auth g deleted_ref s ≡ done tt
  unfolding validate_ref is_deleted is_deleted_ref tag_equal tag_difference
  validate_ref-deleted g s = refl
