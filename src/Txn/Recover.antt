-- ===== src/Txn/Recover.antt =====
-- FidoAuth/pico-keys-sdk/src/fs/object_store_txn.c: the checks of a record and of a commit, and the
-- choice between the two slots (file_object_txn_recover).
use key_wallet.Base.{
  ℕ, ◌+◌, ◌-◌, Bool, true, false, not, ◌&&◌, bit_and, List, [], Option, none, some, ltb, leb, ◌==◌,
  if◌then◌else◌, take, drop, get_or, list_eq,
}
use key_wallet.Bytes.{
  Status, file_not_found, wrong_data, wrong_signature, get_uint16_be, get_uint32_be,
}
use key_wallet.Objects.Storage.{Files, Outcome, failed, done, ◌>>=◌, ◌>>◌, check}
use key_wallet.Txn.{
  Layout, at_slot, TxnState, Authenticator, auth_tag_size, txn_format_version, record_header_size,
  commit_header_size, commit_size, commit_marker, flag_deleted, no_slot, record_magic, commit_magic,
  empty_tag, tag_equal, RecordRef, auth_buffer, auth_record,
}

-- The long test of `file_object_txn_validate_record`, negated.
unfoldable pub record_matches : Layout → ℕ → ℕ → RecordRef → List ℕ → Bool
record_matches layout generation slot r h =
    list_eq (take 4 h) record_magic
    && (get_or h 4 0 == txn_format_version)
    && (get_or h 5 0 == record_header_size)
    && (get_or h 6 0 == slot)
    && (get_or h 7 0 == 0)
    && (get_uint16_be (drop 8 h) == layout.namespace_id)
    && (get_uint16_be (drop 10 h) == layout.object_type)
    && (get_uint32_be (drop 12 h) == layout.object_id)
    && (get_uint32_be (drop 16 h) == generation)
    && (get_uint32_be (drop 20 h) == r.ref_id)
    && (get_uint32_be (drop 24 h) == r.ref_size)
    && (get_uint16_be (drop 28 h) == at_slot slot layout.record_fid)
    && (get_uint16_be (drop 30 h) == 0)

-- The long test of `file_object_txn_parse_commit`, negated. `~FILE_OBJECT_TXN_FLAG_DELETED` is 0xfe
-- on a byte.
unfoldable pub commit_matches : Layout → ℕ → List ℕ → Bool
commit_matches layout slot c =
    list_eq (take 4 c) commit_magic
    && (get_or c 4 0 == txn_format_version)
    && (get_or c 5 0 == commit_header_size)
    && (get_or c 6 0 == slot)
    && (get_or c 7 0 == commit_marker)
    && (get_uint16_be (drop 8 c) == layout.namespace_id)
    && (get_uint16_be (drop 10 c) == layout.object_type)
    && (get_uint32_be (drop 12 c) == layout.object_id)
    && not (get_uint32_be (drop 16 c) == 0)
    && (bit_and (get_or c 27 0) 0xfe == 0)

unfoldable pub commit_generation : List ℕ → ℕ
commit_generation c = get_uint32_be (drop 16 c)

unfoldable pub ref_of : List ℕ → RecordRef
ref_of c = record {
  ref_id = get_uint32_be (drop 20 c);
  ref_fid = get_uint16_be (drop 24 c);
  ref_slot = get_or c 26 0;
  ref_flags = get_or c 27 0;
  ref_size = get_uint32_be (drop 28 c);
  ref_tag = take auth_tag_size (drop 32 c);
}

unfoldable pub is_deleted : RecordRef → Bool
is_deleted r = not (bit_and r.ref_flags flag_deleted == 0)

unfoldable pub is_deleted_ref : RecordRef → Bool
is_deleted_ref r =
    (r.ref_id == 0)
    && (r.ref_size == 0)
    && (r.ref_fid == 0)
    && (r.ref_slot == no_slot)
    && tag_equal r.ref_tag empty_tag

unfoldable pub is_record_ref : Layout → RecordRef → Bool
is_record_ref layout r =
    leb r.ref_slot 1 && (r.ref_fid == at_slot r.ref_slot layout.record_fid) && not (r.ref_id == 0)

unfoldable pub state_of : ℕ → ℕ → RecordRef → TxnState
state_of slot generation r = record {
  generation = generation;
  record_id = r.ref_id;
  payload_size = r.ref_size;
  commit_slot = slot;
  record_slot = r.ref_slot;
  deleted = is_deleted r;
}

unfoldable pub invalid_record : Status → Bool
invalid_record file_not_found = true
invalid_record wrong_data = true
invalid_record wrong_signature = true
invalid_record _ = false

-- One round of the loop of `file_object_txn_recover`, on the state selected so far.
unfoldable pub consider : Option TxnState → Outcome TxnState → Outcome (Option TxnState)
consider selected (failed e) = if invalid_record e then done selected else failed e
consider none (done candidate) = done (some candidate)
consider (some selected) (done candidate) =
    if candidate.generation == selected.generation
    then failed wrong_data
    else if ltb selected.generation candidate.generation
    then done (some candidate)
    else done (some selected)

unfoldable pub found_state : Option TxnState → Outcome TxnState
found_state none = failed file_not_found
found_state (some selected) = done selected

unfoldable pub choose : Outcome TxnState → Outcome TxnState → Outcome TxnState
choose first second = do one ← consider none first; two ← consider one second; found_state two

module _ ⦃files : Files⦄ (layout : Layout) (auth : Authenticator) where
  open files use {Store, File, search, has_data, get_size, read_at}

  unfoldable pub validate_tags : File → RecordRef → List ℕ → Store → Outcome (Unit {0})
  validate_tags file r h s = do
    calculated ← auth_record auth file h r.ref_size s
    stored ← read_at file (record_header_size + r.ref_size) auth_tag_size s
    check (tag_equal calculated stored && tag_equal calculated r.ref_tag) wrong_signature

  unfoldable pub record_file_ok : ℕ → RecordRef → File → Store → Bool
  record_file_ok slot r file s =
      leb r.ref_size (0xffffffff - record_header_size - auth_tag_size)
      && (get_size file s == record_header_size + r.ref_size + auth_tag_size)

  unfoldable pub validate_file : ℕ → RecordRef → Option File → Store → Outcome (Unit {0})
  validate_file generation r none s = failed file_not_found
  validate_file generation r (some file) s = do
    check (has_data file s) file_not_found
    check (record_file_ok r.ref_slot r file s) wrong_data
    h ← read_at file 0 record_header_size s
    check (record_matches layout generation r.ref_slot r h) wrong_data
    validate_tags file r h s

  unfoldable pub validate_record : ℕ → RecordRef → Store → Outcome (Unit {0})
  validate_record generation r s = do
    check (leb r.ref_slot 1) wrong_data
    validate_file generation r (search (at_slot r.ref_slot layout.record_fid) s) s

  unfoldable pub validate_ref : ℕ → RecordRef → Store → Outcome (Unit {0})
  validate_ref generation r s =
      if is_deleted r
      then check (is_deleted_ref r) wrong_data
      else (check (is_record_ref layout r) wrong_data >> validate_record generation r s)

  unfoldable pub check_commit : ℕ → List ℕ → Store → Outcome TxnState
  check_commit slot c s = do
    check (commit_matches layout slot c) wrong_data
    calculated ← auth_buffer auth (take commit_header_size c) []
    check (tag_equal calculated (drop commit_header_size c)) wrong_signature
    validate_ref (commit_generation c) (ref_of c) s
    done (state_of slot (commit_generation c) (ref_of c))

  unfoldable pub parse_commit_file : ℕ → Option File → Store → Outcome TxnState
  parse_commit_file slot none s = failed file_not_found
  parse_commit_file slot (some file) s = do
    check (has_data file s) file_not_found
    check (get_size file s == commit_size) wrong_data
    c ← read_at file 0 commit_size s
    check_commit slot c s

  unfoldable pub parse_commit : ℕ → Store → Outcome TxnState
  parse_commit slot s = parse_commit_file slot (search (at_slot slot layout.commit_fid) s) s

  unfoldable pub recover : Store → Outcome TxnState
  recover s = choose (parse_commit 0 s) (parse_commit 1 s)
