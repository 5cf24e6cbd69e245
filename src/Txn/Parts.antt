-- ===== src/Txn/Parts.antt =====
-- FidoAuth/pico-keys-sdk/src/fs/object_store_txn.c: both slots after a put or a deletion.
use key_wallet.Base.{
  ℕ, zero, suc, take, drop, ◌≤◌, ◌+◌, ◌≤◌, ◌<◌, ◌^◌, ◌≡◌, ◌≢◌, ◌⊎◌, inl, inr, refl, sym, true,
  false, List, [], ◌++◌, some, length, Bool-cases, arith, leb, length-append, take, drop,
}
use key_wallet.Bytes.{Status, ok}
use key_wallet.Policy.{is_ok}
use key_wallet.Objects.Storage.{Files, done}
use key_wallet.Txn.{
  Layout, at_slot, TxnState, Authenticator, RecordRef, record_header, commit_header, deleted_ref,
  record_header_size,
}
use key_wallet.Txn.Recover.{parse_commit, state_of, validate_ref, is_deleted, is_record_ref}
use key_wallet.Txn.Crash.{SameSlot, other}
use key_wallet.Txn.Write.{then_do, sync, clear_slot, record_tag, prepare, txn_finish, new_ref}
use key_wallet.Txn.Disk.{is_ok-true, is_ok-false, IsDisk, KeepsOthers, SameFile-Contains}
use key_wallet.Txn.Replace.{then_do-ok}
use key_wallet.Txn.Mac.{IsMac, auth_buffer-mac}
use key_wallet.Txn.Progress.{
  Apart, Quiet, Unharmed, Quiet-Unharmed, same_slot, sync-Quiet, then_do-Unharmed, clear_slot-Quiet,
  clear_slot-Unharmed, prepare-Quiet, prepare-Unharmed, prepare-Contains,
}
use key_wallet.Txn.Ending.{stopped, committed, txn_finish-Ending}
use key_wallet.Txn.Headers.{IsLayout, IsRef, commit_header-length, record_header-length}
use key_wallet.Txn.Valid.{
  reads_payload, parse_commit-header, validate_ref-header, validate_ref-deleted,
}

slot_small : (c : ℕ) → leb (other c) 1 ≡ true
slot_small zero = refl
slot_small (suc c) = refl

-- The record file of the slot is there, and the payload is read behind its header.
pub record HasRecord ⦃files : Files⦄ (layout : Layout) (slot : ℕ) (payload : List ℕ)
    (s : files.Store) : Type 0 where
  pub file : files.File
  pub found : files.search (at_slot slot layout.record_fid) s ≡ some file
  pub reads :
      (offset len : ℕ)
      → offset + len ≤ length payload
      → files.read_at file (record_header_size + offset) len s
        ≡ done (take len (drop offset payload))

module _ ⦃files : Files⦄ (layout : Layout) (auth : Authenticator) where
  open files use {Store, File}

  module _ (d : IsDisk) (m : IsMac auth) (v : IsLayout layout) (st : TxnState)
      (apart : Apart layout st.commit_slot) (s : Store) (g : ℕ) (positive : 0 < g)
      (small : g < 2 ^ 32) where
    abbrev slot : ℕ
    slot = other st.commit_slot

    abbrev sealed : RecordRef → List ℕ
    sealed r = commit_header layout slot g r ++ m.mac (commit_header layout slot g r ++ [])

    -- A failure with the current slot unharmed, or the files of the current slot as they were, a commit
    -- in the other slot that its check accepts, and the record written.
    abbrev pub Parts : RecordRef → (Store → Type 0) → Status × Store → Type 0
    Parts r Written result =
        ((result.0 ≢ ok) × Unharmed d layout auth st apart s result.1)
        ⊎ (SameSlot layout auth st.commit_slot s result.1
            × (parse_commit layout auth slot result.1 ≡ done (state_of slot g r))
            × Written result.1)

    finish_failed :
        (r : RecordRef) (e : Status) (t : Store)
        → is_ok e ≡ false
        → txn_finish layout auth slot g r (e, t) ≡ (e, t)
    unfolding txn_finish
    finish_failed r e t bad = rw (bad, bad) refl

    txn_finish-Parts :
        (r : RecordRef) (Written : Store → Type 0) (prepared : Status × Store)
        → IsRef r
        → Unharmed d layout auth st apart s prepared.1
        → (prepared.0 ≡ ok → Quiet d layout auth st apart s prepared.1)
        → (prepared.0 ≡ ok
            → (u : Store) → KeepsOthers (at_slot slot layout.commit_fid) prepared.1 u
            → (validate_ref layout auth g r u ≡ done tt) × Written u)
        → Parts r Written (txn_finish layout auth slot g r prepared)
    txn_finish-Parts r Written (e, t) w safe quiet valid = elim (Bool-cases (is_ok e)) [
      | inl good ↦
          (let well = is_ok-true e good in
            elim (txn_finish-Ending d layout auth st apart s g r
              (m.mac (commit_header layout slot g r ++ [])) (e, t)
              (auth_buffer-mac auth m (commit_header layout slot g r) [])
              (omega (arith, commit_header-length layout slot g r w.tag_size)) safe quiet) [
                | stopped bad rest ↦ inl (bad, rest)
                | committed c keeps ↦ inr (
                  same_slot d layout auth st apart s t _ (quiet well).0 keeps,
                  parse_commit-header layout auth m v slot g r _ w positive small
                      (valid well _ keeps).0 c,
                  (valid well _ keeps).1,
                )
              ])
      | inr bad ↦ rw (finish_failed r e t bad) (inl (is_ok-false e bad, safe))
    ]

    module _ (payload : List ℕ) (payload_small : length payload + 48 < 2 ^ 32) where
      abbrev pub tag : List ℕ
      tag = m.mac (record_header layout slot g g (length payload) ++ payload)

      abbrev pub ref : RecordRef
      ref = new_ref layout auth slot g (length payload) tag

      pub tag_known : record_tag layout auth slot g g payload ≡ done tag
      unfolding record_tag
      tag_known = auth_buffer-mac auth m (record_header layout slot g g (length payload)) payload

      ref-IsRef : IsRef ref
      unfolding new_ref
      ref-IsRef = record {
        id_small = small;
        fid_small = v.record_small slot;
        flags_known = refl;
        size_small = omega (arith, payload_small);
        tag_size = m.tag_length (record_header layout slot g g (length payload) ++ payload);
      }

      abbrev prepared : Status × Store
      prepared = prepare layout auth slot g payload s

      ref-own : is_record_ref layout ref ≡ true
      unfolding is_record_ref new_ref
      ref-own = ground (arith, slot_small st.commit_slot, positive)

      prepared-accepted :
          prepared.0 ≡ ok
          → (u : Store) → KeepsOthers (at_slot slot layout.commit_fid) prepared.1 u
          → (validate_ref layout auth g ref u ≡ done tt) × HasRecord layout slot payload u
      unfolding new_ref is_deleted
      prepared-accepted good u keeps =
          let c =
            prepare-Contains d layout auth st apart s g payload tag tag_known
              (omega (
                arith,
                length-append (record_header layout slot g g (length payload)) payload,
                record_header-length layout slot g g (length payload),
              ))
              good in
          let kept =
            SameFile-Contains (at_slot slot layout.record_fid) _ prepared.1 u
              (keeps (at_slot slot layout.record_fid) (apart.5 slot).1 (λ e. apart.4 (sym e))) c in
          (
            validate_ref-header layout auth m v g ref payload u ref-IsRef small refl payload_small
                refl refl (slot_small st.commit_slot) ref-own kept,
            record {
              file = kept.file;
              found = kept.found;
              reads =
                  reads_payload layout auth m v (at_slot slot layout.record_fid)
                    (record_header layout slot g g (length payload)) payload tag u
                    (record_header-length layout slot g g (length payload))
                    (m.tag_length (record_header layout slot g g (length payload) ++ payload)) kept;
            },
          )

      pub put-Parts :
          Parts ref (HasRecord layout slot payload) (txn_finish layout auth slot g ref prepared)
      put-Parts =
          txn_finish-Parts ref (HasRecord layout slot payload) prepared ref-IsRef
            (prepare-Unharmed d layout auth st apart s g payload)
            (prepare-Quiet d layout auth st apart s g payload) prepared-accepted

    pub delete-Parts :
        Parts deleted_ref
          (λ u. Unit {0})
          (txn_finish layout auth slot g deleted_ref (then_do (clear_slot layout slot s) sync))
    delete-Parts =
        let cleared = clear_slot layout slot s in
        let safe = clear_slot-Unharmed d layout auth st apart s in
        let quiet = clear_slot-Quiet d layout auth st apart s in
        txn_finish-Parts deleted_ref (λ u. Unit {0}) (then_do cleared sync)
          (record {
            id_small = omega arith;
            fid_small = omega arith;
            flags_known = refl;
            size_small = omega arith;
            tag_size = refl;
          })
          (then_do-Unharmed d layout auth st apart s cleared sync safe (λ e.
            Quiet-Unharmed d layout auth st apart s (sync cleared.1).1
              (sync-Quiet d layout auth st apart s cleared.1 (quiet e))))
          (λ e.
            let p = then_do-ok cleared sync e in
            rw p.2 (sync-Quiet d layout auth st apart s cleared.1 (quiet p.0)))
          (λ e u keeps. (validate_ref-deleted layout auth m v g u, tt))
