-- ===== src/Txn/Write.antt =====
-- FidoAuth/pico-keys-sdk/src/fs/object_store_txn.c: how a new generation is written, and the deletion.
use key_wallet.Base.{
  ℕ, ◌+◌, ◌-◌, Bool, true, false, not, bit_xor, List, [], ◌++◌, Option, none, some, ltb, ◌==◌,
  if◌then◌else◌, length,
}
use key_wallet.Bytes.{
  Status, ok, file_not_found, wrong_data, null_param, no_memory, memory_fatal, wrong_length,
}
use key_wallet.Policy.{is_ok}
use key_wallet.Objects.Storage.{Files, Outcome, failed, done}
use key_wallet.Txn.{
  Layout, at_slot, TxnState, Authenticator, auth_tag_size, record_header_size, record_header,
  commit_header, RecordRef, deleted_ref, auth_buffer, layout_valid,
}
use key_wallet.Txn.Recover.{recover}

-- The slot that a new generation is written to, and the generation.
unfoldable pub next_state : Outcome TxnState → Outcome (ℕ × ℕ)
next_state (failed file_not_found) = done (0, 1)
next_state (failed e) = failed e
next_state (done current) =
    if current.generation == 0xffffffff
    then failed wrong_data
    else done (bit_xor current.commit_slot 1, current.generation + 1)

module _ ⦃files : Files⦄ where
  open files use {
    Store, File, search, create, put_data, delete_no_commit, is_static, commit_sync, allocates,
  }

  -- `if (r == PICOKEYS_OK) r = ...`
  abbrev pub then_do : Status × Store → (Store → Status × Store) → Status × Store
  then_do r k = if is_ok r.0 then k r.1 else r

  unfoldable pub remove_found : ℕ → Option File → Store → Status × Store
  remove_found fid none s = (ok, s)
  remove_found fid (some file) s =
      if is_static fid then (wrong_data, s) else delete_no_commit file s

  unfoldable pub remove_file : ℕ → Store → Status × Store
  remove_file fid s = remove_found fid (search fid s) s

  unfoldable pub put_new : List ℕ → Option File × Store → Status × Store
  put_new bytes (none, s) = (no_memory, s)
  put_new bytes (some file, s) = put_data file bytes s

  unfoldable pub replace_file : ℕ → List ℕ → Store → Status × Store
  replace_file fid bytes s = then_do (remove_file fid s) (λ t. put_new bytes (create fid t))

  -- `if (!flash_commit_sync(...)) r = PICOKEYS_ERR_MEMORY_FATAL`
  unfoldable pub synced : Bool × Store → Status × Store
  synced (true, s) = (ok, s)
  synced (false, s) = (memory_fatal, s)

  unfoldable pub sync : Store → Status × Store
  sync s = synced (commit_sync 5000 s)

  -- The files of the slot that will be written are removed, the commit first.
  unfoldable pub clear_slot : Layout → ℕ → Store → Status × Store
  clear_slot layout slot s =
      then_do (remove_file (at_slot slot layout.commit_fid) s)
        (remove_file (at_slot slot layout.record_fid))

  unfoldable pub write_sealed : ℕ → List ℕ → Outcome (List ℕ) → Store → Status × Store
  write_sealed fid bytes (failed e) s = (e, s)
  write_sealed fid bytes (done tag) s = replace_file fid (bytes ++ tag) s

  module _ (layout : Layout) (auth : Authenticator) where
    -- The tag of a record; it is part of the record and of its commit.
    unfoldable pub record_tag : ℕ → ℕ → ℕ → List ℕ → Outcome (List ℕ)
    record_tag slot generation record_id payload =
        auth_buffer auth (record_header layout slot generation record_id (length payload)) payload

    unfoldable pub write_record : ℕ → ℕ → ℕ → List ℕ → Store → Status × Store
    write_record slot generation record_id payload s =
        if ltb (0xffffffff - record_header_size - auth_tag_size) (length payload)
        then (no_memory, s)
        else if not (allocates (record_header_size + length payload + auth_tag_size) s)
        then (memory_fatal, s)
        else write_sealed (at_slot slot layout.record_fid)
            (record_header layout slot generation record_id (length payload) ++ payload)
            (record_tag slot generation record_id payload) s

    unfoldable pub write_commit : ℕ → ℕ → RecordRef → Store → Status × Store
    write_commit slot generation r s =
        write_sealed (at_slot slot layout.commit_fid) (commit_header layout slot generation r)
          (auth_buffer auth (commit_header layout slot generation r) []) s

    unfoldable pub new_ref : ℕ → ℕ → ℕ → List ℕ → RecordRef
    new_ref slot record_id len tag = record {
      ref_id = record_id;
      ref_fid = at_slot slot layout.record_fid;
      ref_slot = slot;
      ref_flags = 0;
      ref_size = len;
      ref_tag = tag;
    }

    unfoldable pub tag_or_empty : Outcome (List ℕ) → List ℕ
    tag_or_empty (failed e) = []
    tag_or_empty (done tag) = tag

    -- The record is on the flash before its commit is written.
    unfoldable pub prepare : ℕ → ℕ → List ℕ → Store → Status × Store
    prepare slot generation payload s =
        then_do
          (then_do (clear_slot layout slot s) (write_record slot generation generation payload))
          sync

    unfoldable pub txn_finish : ℕ → ℕ → RecordRef → Status × Store → Status × Store
    txn_finish slot generation r prepared =
        then_do (then_do prepared (write_commit slot generation r)) sync

    unfoldable pub txn_put_at : List ℕ → Store → Outcome (ℕ × ℕ) → Status × Store
    txn_put_at payload s (failed e) = (e, s)
    txn_put_at payload s (done (slot, generation)) =
        txn_finish slot generation
          (new_ref slot generation (length payload)
            (tag_or_empty (record_tag slot generation generation payload)))
          (prepare slot generation payload s)

    unfoldable pub txn_put : List ℕ → Store → Status × Store
    txn_put payload s =
        if not (layout_valid layout)
        then (null_param, s)
        else if ltb 0xffffffff (length payload)
        then (wrong_length, s)
        else txn_put_at payload s (next_state (recover layout auth s))

    unfoldable pub delete_from : Store → Outcome TxnState → Status × Store
    delete_from s (failed e) = (e, s)
    delete_from s (done current) =
        if current.deleted
        then (file_not_found, s)
        else if current.generation == 0xffffffff
        then (wrong_data, s)
        else let slot = bit_xor current.commit_slot 1 in
          txn_finish slot (current.generation + 1) deleted_ref
            (then_do (clear_slot layout slot s) sync)

    unfoldable pub txn_delete : Store → Status × Store
    txn_delete s =
        if not (layout_valid layout) then (null_param, s) else delete_from s (recover layout auth s)
