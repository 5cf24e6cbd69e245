-- ===== src/Txn/First.antt =====
-- FidoAuth/pico-keys-sdk/src/fs/object_store_txn.c: the first put of an object.
use key_wallet.Base.{
  ℕ, ◌+◌, ◌<◌, ◌^◌, ◌≡◌, ◌≢◌, ◌⊎◌, inl, inr, true, false, List, length, arith, ltb,
}
use key_wallet.Bytes.{ok, file_not_found}
use key_wallet.Objects.Storage.{Files, failed, done}
use key_wallet.Txn.{Layout, at_slot, TxnState, Authenticator, layout_valid}
use key_wallet.Txn.Recover.{recover, parse_commit, state_of, is_deleted}
use key_wallet.Txn.Crash.{
  IsSpoiled, IsSpoiled-parse_commit, choose-IsPassed, choose_first, SameSlot,
}
use key_wallet.Txn.Write.{txn_put, txn_put_at, next_state, tag_or_empty, new_ref}
use key_wallet.Txn.Disk.{IsDisk, SameFile-IsSpoiled}
use key_wallet.Txn.Mac.{IsMac}
use key_wallet.Txn.Progress.{Apart, layout_valid-Apart, Unharmed}
use key_wallet.Txn.Headers.{IsLayout}
use key_wallet.Txn.Parts.{HasRecord, put-Parts, tag_known}

-- The state of the first generation; only its slot matters before it is written.
abbrev pub first_put : ℕ → TxnState
first_put len = record {
  generation = 1;
  record_id = 1;
  payload_size = len;
  commit_slot = 0;
  record_slot = 0;
  deleted = false;
}

abbrev before : TxnState
before = record {
  generation = 0;
  record_id = 0;
  payload_size = 0;
  commit_slot = 1;
  record_slot = 1;
  deleted = true;
}

module _ ⦃files : Files⦄ (d : IsDisk) (layout : Layout) (auth : Authenticator) (m : IsMac auth)
    (v : IsLayout layout) (valid : layout_valid layout ≡ true) where
  open files use {Store}

  -- Neither slot has a commit: its file has no data, or was being cleared.
  abbrev pub Blank : Store → Type 0
  Blank s = IsSpoiled (at_slot 0 layout.commit_fid) s × IsSpoiled (at_slot 1 layout.commit_fid) s

  Blank-recover : (s : Store) → Blank s → recover layout auth s ≡ failed file_not_found
  unfolding recover
  Blank-recover s b =
      choose-IsPassed (parse_commit layout auth 0 s) (parse_commit layout auth 1 s)
        (IsSpoiled-parse_commit layout auth 0 s b.0) (IsSpoiled-parse_commit layout auth 1 s b.1)

  module _ (s : Store) (blank : Blank s) where
    abbrev apart : Apart layout 1
    apart = layout_valid-Apart layout 1 v valid

    other_blank :
        (t : Store) → SameSlot layout auth 1 s t → IsSpoiled (at_slot 1 layout.commit_fid) t
    other_blank t same = SameFile-IsSpoiled (at_slot 1 layout.commit_fid) s t same.0 blank.1

    Blank-Unharmed : (t : Store) → Unharmed d layout auth before apart s t → Blank t
    Blank-Unharmed t (inl quiet) = (quiet.1, other_blank t quiet.0)
    Blank-Unharmed t (inr kept) = (
      SameFile-IsSpoiled (at_slot 0 layout.commit_fid) s t
          (kept (at_slot 0 layout.commit_fid) (apart.5 0).0) blank.0,
      SameFile-IsSpoiled (at_slot 1 layout.commit_fid) s t
          (kept (at_slot 1 layout.commit_fid) (apart.5 1).0) blank.1,
    )

    first_parts :
        (payload : List ℕ)
        → length payload + 48 < 2 ^ 32
        → (((txn_put layout auth payload s).0 ≢ ok)
            × Unharmed d layout auth before apart s (txn_put layout auth payload s).1)
          ⊎ (SameSlot layout auth 1 s (txn_put layout auth payload s).1
              × (parse_commit layout auth 0 (txn_put layout auth payload s).1
                  ≡ done (first_put (length payload)))
              × HasRecord layout 0 payload (txn_put layout auth payload s).1)
    unfolding txn_put txn_put_at next_state tag_or_empty new_ref state_of is_deleted
    first_parts payload fits =
        let big : ltb 0xffffffff (length payload) ≡ false = ground (arith, fits) in
        rw
          (
            valid,
            big,
            Blank-recover s blank,
            tag_known layout auth d m v before apart s 1 (omega arith) (omega arith) payload fits,
          )
          (put-Parts layout auth d m v before apart s 1 (omega arith) (omega arith) payload fits)

    -- Where the file table keeps its promises on plain identifiers, no file of the object is EF_META, the
    -- authenticator is a MAC and the layout is valid: the
    -- first put of an object, from a store in which no slot has a commit that is whole, ends with another status than OK and still no slot has a commit, so that
    -- no object is recovered, or the state of the first generation is recovered, and its record file
    -- has the payload.
    pub txn_put_first :
        (payload : List ℕ)
        → length payload + 48 < 2 ^ 32
        → (((txn_put layout auth payload s).0 ≢ ok)
            × (recover layout auth (txn_put layout auth payload s).1 ≡ failed file_not_found)
            × Blank (txn_put layout auth payload s).1)
          ⊎ ((recover layout auth (txn_put layout auth payload s).1
                ≡ done (first_put (length payload)))
              × HasRecord layout 0 payload (txn_put layout auth payload s).1)
    unfolding recover
    txn_put_first payload fits =
        let u = (txn_put layout auth payload s).1 in
        elim (first_parts payload fits) [
          | inl old ↦
              (let still = Blank-Unharmed u old.1 in inl (old.0, Blank-recover u still, still))
          | inr new ↦ inr (
            (let p = IsSpoiled-parse_commit layout auth 1 u (other_blank u new.0) in
                rw (new.1, p.1) (choose_first (first_put (length payload)) p.0 p.2)),
            new.2,
          )
        ]
