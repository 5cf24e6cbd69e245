-- ===== src/Txn/Atomic.antt =====
-- FidoAuth/pico-keys-sdk/src/fs/object_store_txn.c: what is recovered after a put or a deletion.
use key_wallet.Base.{
  ℕ, ◌+◌, ◌<◌, ◌^◌, ◌≡◌, ◌≢◌, ◌⊎◌, inl, inr, refl, ap, ◌∙◌, true, false, List, length, arith, ltb,
  ◌==◌, bit_xor,
}
use key_wallet.Bytes.{ok}
use key_wallet.Objects.Storage.{Files, done}
use key_wallet.Txn.{Layout, TxnState, Authenticator, layout_valid, deleted_ref}
use key_wallet.Txn.Recover.{
  recover, choose, consider, found_state, parse_commit, state_of, is_deleted,
}
use key_wallet.Txn.Frame.{parse_commit-slot}
use key_wallet.Txn.Crash.{SameSlot, other, IsOwn, SameSlot-parse_commit, choose-eq-done}
use key_wallet.Txn.Write.{
  then_do, sync, clear_slot, txn_finish, new_ref, tag_or_empty, next_state, txn_put_at, txn_put,
  delete_from, txn_delete,
}
use key_wallet.Txn.Disk.{IsDisk}
use key_wallet.Txn.Mac.{IsMac}
use key_wallet.Txn.Progress.{Apart, layout_valid-Apart, Unharmed, Unharmed-recover}
use key_wallet.Txn.Parts.{HasRecord, tag_known, put-Parts, delete-Parts}
use key_wallet.Txn.Headers.{IsLayout}

abbrev IsSlot : ℕ → Type 0
IsSlot c = (c ≡ 0) ⊎ (c ≡ 1)

other_xor : (c : ℕ) → IsSlot c → bit_xor c 1 ≡ other c
other_xor c (inl e) = rw e refl
other_xor c (inr e) = rw e refl

-- Of two sound slots the one with the higher generation is chosen, in either order.
pub choose-newer :
    (old new : TxnState)
    → old.generation < new.generation
    → (choose (done old) (done new) ≡ done new) × (choose (done new) (done old) ≡ done new)
unfolding choose consider found_state
choose-newer old new h = ground arith

module _ ⦃files : Files⦄ (layout : Layout) (auth : Authenticator) where
  open files use {Store, File}

  -- A recovered state is that of its slot.
  recover-parse_commit :
      (s : Store) (st : TxnState)
      → recover layout auth s ≡ done st
      → IsSlot st.commit_slot × (parse_commit layout auth st.commit_slot s ≡ done st)
  unfolding recover
  recover-parse_commit s st h =
      elim (choose-eq-done (parse_commit layout auth 0 s) (parse_commit layout auth 1 s) h) [
        | inl first ↦
            (let e = parse_commit-slot layout auth 0 s first in
              (inl e, ap (λ (c : ℕ). parse_commit layout auth c s) e ∙ first))
        | inr second ↦
            (let e = parse_commit-slot layout auth 1 s second in
              (inr e, ap (λ (c : ℕ). parse_commit layout auth c s) e ∙ second))
      ]

  recover-newer :
      (c : ℕ) (s : Store) (old new : TxnState)
      → IsSlot c
      → parse_commit layout auth c s ≡ done old
      → parse_commit layout auth (other c) s ≡ done new
      → old.generation < new.generation
      → recover layout auth s ≡ done new
  unfolding recover
  recover-newer c s old new (inl e) p q less =
      rw (rw e at p, rw e at q) (choose-newer old new less).0
  recover-newer c s old new (inr e) p q less =
      rw (rw e at p, rw e at q) (choose-newer old new less).1

  module _ (st : TxnState) (s : Store) (own : IsOwn layout auth st)
      (start : recover layout auth s ≡ done st) (g : ℕ) (newer : st.generation < g) where
    -- The commit of the next generation makes its state the recovered one.
    new-recover :
        (new : TxnState) (u : Store)
        → new.generation ≡ g
        → SameSlot layout auth st.commit_slot s u
        → parse_commit layout auth (other st.commit_slot) u ≡ done new
        → recover layout auth u ≡ done new
    new-recover new u e same parsed =
        let found = recover-parse_commit s st start in
        recover-newer st.commit_slot u st new found.0
          (SameSlot-parse_commit layout auth st.commit_slot s u st own found.1 same) parsed
          (omega (arith, e, newer))

-- The state after a put of so many bytes, and after a deletion.
abbrev pub put_state : TxnState → ℕ → TxnState
put_state st len = record {
  generation = st.generation + 1;
  record_id = st.generation + 1;
  payload_size = len;
  commit_slot = other st.commit_slot;
  record_slot = other st.commit_slot;
  deleted = false;
}

abbrev pub delete_state : TxnState → TxnState
delete_state st = record {
  generation = st.generation + 1;
  record_id = 0;
  payload_size = 0;
  commit_slot = other st.commit_slot;
  record_slot = 0xff;
  deleted = true;
}

module _ ⦃files : Files⦄ (d : IsDisk) (layout : Layout) (auth : Authenticator) (m : IsMac auth)
    (v : IsLayout layout) (valid : layout_valid layout ≡ true) where
  open files use {Store}

  module _ (s : Store) (st : TxnState) (start : recover layout auth s ≡ done st)
      (small : st.generation + 1 < 2 ^ 32) where
    abbrev apart : Apart layout st.commit_slot
    apart = layout_valid-Apart layout st.commit_slot v valid

    -- A put as its parts.
    pub put_parts :
        (payload : List ℕ)
        → length payload + 48 < 2 ^ 32
        → (((txn_put layout auth payload s).0 ≢ ok)
            × Unharmed d layout auth st apart s (txn_put layout auth payload s).1)
          ⊎ (SameSlot layout auth st.commit_slot s (txn_put layout auth payload s).1
              × (parse_commit layout auth (other st.commit_slot) (txn_put layout auth payload s).1
                  ≡ done (put_state st (length payload)))
              × HasRecord layout (other st.commit_slot) payload (txn_put layout auth payload s).1)
    unfolding txn_put txn_put_at next_state tag_or_empty new_ref state_of is_deleted
    put_parts payload fits =
        let g = st.generation + 1 in
        let big : ltb 0xffffffff (length payload) ≡ false = ground (arith, fits) in
        let last : (st.generation == 0xffffffff) ≡ false = ground (arith, small) in
        let slot = other_xor st.commit_slot (recover-parse_commit layout auth s st start).0 in
        rw
          (
            valid,
            big,
            start,
            last,
            slot,
            tag_known layout auth d m v st apart s g (omega arith) small payload fits,
          )
          (put-Parts layout auth d m v st apart s g (omega arith) small payload fits)

    delete_runs :
        st.deleted ≡ false
        → txn_delete layout auth s
          ≡ txn_finish layout auth
              (other st.commit_slot)
              (st.generation + 1)
              deleted_ref
              (then_do (clear_slot layout (other st.commit_slot) s) sync)
    unfolding txn_delete delete_from
    delete_runs live =
        let last : (st.generation == 0xffffffff) ≡ false = ground (arith, small) in
        let slot = other_xor st.commit_slot (recover-parse_commit layout auth s st start).0 in
        rw (valid, start, live, last, slot) refl

    -- A deletion as its parts.
    pub delete_parts :
        st.deleted ≡ false
        → (((txn_delete layout auth s).0 ≢ ok)
            × Unharmed d layout auth st apart s (txn_delete layout auth s).1)
          ⊎ (SameSlot layout auth st.commit_slot s (txn_delete layout auth s).1
              × (parse_commit layout auth (other st.commit_slot) (txn_delete layout auth s).1
                  ≡ done (delete_state st))
              × Unit {0})
    unfolding state_of is_deleted
    delete_parts live =
        rw (delete_runs live)
          (delete-Parts layout auth d m v st apart s (st.generation + 1) (omega arith) small)

    module _ (own : IsOwn layout auth st) where
      pub put-new :
          (new : TxnState) (u : Store)
          → new.generation ≡ st.generation + 1
          → SameSlot layout auth st.commit_slot s u
          → parse_commit layout auth (other st.commit_slot) u ≡ done new
          → recover layout auth u ≡ done new
      put-new new u e same parsed =
          new-recover layout auth st s own start (st.generation + 1) (omega arith) new u e same
            parsed

module _ ⦃files : Files⦄ where
  open files use {Store}

  -- Where the file table keeps its promises on plain identifiers, no file of the object is EF_META, the
  -- authenticator is a MAC and the layout is valid: a put
  -- over a current state that this code wrote, with 32 bits for the next generation and the record's
  -- size, ends with another status than OK and that state is recovered afterwards, or the state of the
  -- next generation is recovered, with the new size, in the other slot, and the record file of that
  -- slot has the payload.
  pub txn_put_atomic :
      (d : IsDisk) (layout : Layout) (auth : Authenticator) (m : IsMac auth) (v : IsLayout layout)
      (payload : List ℕ) (s : Store) (st : TxnState)
      → layout_valid layout ≡ true
      → recover layout auth s ≡ done st
      → IsOwn layout auth st
      → st.generation + 1 < 2 ^ 32
      → length payload + 48 < 2 ^ 32
      → (((txn_put layout auth payload s).0 ≢ ok)
          × (recover layout auth (txn_put layout auth payload s).1 ≡ done st))
        ⊎ ((recover layout auth (txn_put layout auth payload s).1
              ≡ done (put_state st (length payload)))
            × HasRecord layout (other st.commit_slot) payload (txn_put layout auth payload s).1)
  txn_put_atomic d layout auth m v payload s st valid start own small fits =
      elim (put_parts d layout auth m v valid s st start small payload fits) [
        | inl old ↦ inl (
          old.0,
          Unharmed-recover d layout auth st (layout_valid-Apart layout st.commit_slot v valid) s
              (txn_put layout auth payload s).1 own start old.1,
        )
        | inr new ↦ inr (
          put-new d layout auth m v valid s st start small own (put_state st (length payload))
              (txn_put layout auth payload s).1 refl new.0 new.1,
          new.2,
        )
      ]

  -- Under the same conditions, the deletion of an object that is there ends with another status than
  -- OK and the object is recovered as it was, or the deleted state of the next generation is recovered.
  pub txn_delete_atomic :
      (d : IsDisk) (layout : Layout) (auth : Authenticator) (m : IsMac auth) (v : IsLayout layout)
      (s : Store) (st : TxnState)
      → layout_valid layout ≡ true
      → recover layout auth s ≡ done st
      → IsOwn layout auth st
      → st.deleted ≡ false
      → st.generation + 1 < 2 ^ 32
      → (((txn_delete layout auth s).0 ≢ ok)
          × (recover layout auth (txn_delete layout auth s).1 ≡ done st))
        ⊎ (recover layout auth (txn_delete layout auth s).1 ≡ done (delete_state st))
  txn_delete_atomic d layout auth m v s st valid start own live small =
      elim (delete_parts d layout auth m v valid s st start small live) [
        | inl old ↦ inl (
          old.0,
          Unharmed-recover d layout auth st (layout_valid-Apart layout st.commit_slot v valid) s
              (txn_delete layout auth s).1 own start old.1,
        )
        | inr new ↦ inr (
            put-new d layout auth m v valid s st start small own (delete_state st)
              (txn_delete layout auth s).1 refl new.0 new.1)
      ]
