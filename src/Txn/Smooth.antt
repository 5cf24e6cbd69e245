-- ===== src/Txn/Smooth.antt =====
-- FidoAuth/pico-keys-sdk/src/fs/object_store_txn.c: a put on a file table that has room for it.
use key_wallet.Base.{
  ℕ, bit_xor, suc, ◌+◌, ◌-◌, ◌<◌, ◌≤◌, ◌^◌, sym, ap, ◌∙◌, ◌++◌, length-append, ◌≡◌, inl, inr, refl,
  Bool, true, false, List, [], Option, none, some, length, arith, ltb, ◌==◌,
}
use key_wallet.Bytes.{Status, ok}
use key_wallet.Objects.Storage.{Files, done}
use key_wallet.Txn.{
  Layout, at_slot, TxnState, Authenticator, RecordRef, record_header, commit_header, layout_valid,
  record_header_size, auth_tag_size,
}
use key_wallet.Txn.Recover.{recover}
use key_wallet.Txn.Crash.{IsOwn, NoData}
use key_wallet.Txn.Write.{
  then_do, remove_found, remove_file, put_new, replace_file, synced, sync, clear_slot, write_sealed,
  record_tag, write_record, write_commit, prepare, txn_finish, txn_put_at, next_state, txn_put,
  tag_or_empty, new_ref,
}
use key_wallet.Txn.Disk.{IsDisk, IsPlain}
use key_wallet.Txn.Replace.{remove_file-gone}
use key_wallet.Txn.Progress.{ArePlain, layout_valid-ArePlain}
use key_wallet.Txn.Mac.{IsMac, auth_buffer-mac}
use key_wallet.Txn.Headers.{IsLayout, record_header-length, commit_header-length}
use key_wallet.Txn.Atomic.{put_state, txn_put_atomic}

module _ ⦃files : Files⦄ where
  open files use {
    Store, File, search, has_data, create, put_data, delete_no_commit, commit_sync, allocates,
  }

  -- A file table with room: in a store that fits `n` more files of at most `limit` bytes each, a deletion
  -- and the waiting for the flash succeed and keep the room, a new file is made, and a put in it of at
  -- most `limit` bytes succeeds and takes the room of one file.
  pub record IsRoomy (limit : ℕ) (Fits : ℕ → Store → Type 0) : Type 0 where
    pub deletes :
        (n fid : ℕ) (file : File) (s : Store)
        → IsPlain fid
        → search fid s ≡ some file
        → Fits n s
        → ((delete_no_commit file s).0 ≡ ok) × Fits n (delete_no_commit file s).1
    pub creates :
        (n fid : ℕ) (s : Store)
        → IsPlain fid
        → search fid s ≡ none
        → Fits (suc n) s
        → (file : File) × ((create fid s).0 ≡ some file) × Fits (suc n) (create fid s).1
    pub puts :
        (n fid : ℕ) (file : File) (b : List ℕ) (s : Store)
        → IsPlain fid
        → search fid s ≡ some file
        → has_data file s ≡ false
        → length b ≤ limit
        → Fits (suc n) s
        → ((put_data file b s).0 ≡ ok) × Fits n (put_data file b s).1
    pub syncs :
        (n ms : ℕ) (s : Store)
        → Fits n s
        → ((commit_sync ms s).0 ≡ true) × Fits n (commit_sync ms s).1
    pub room : (n size : ℕ) (s : Store) → size ≤ limit → Fits (suc n) s → allocates size s ≡ true

  -- The result is OK, and what is left fits so many more files.
  abbrev Good : (ℕ → Store → Type 0) → ℕ → Status × Store → Type 0
  Good Fits n r = (r.0 ≡ ok) × Fits n r.1

  then_do-Good :
      (Fits : ℕ → Store → Type 0) (n k : ℕ) (r : Status × Store) (f : Store → Status × Store)
      → Good Fits n r
      → (Fits n r.1 → Good Fits k (f r.1))
      → Good Fits k (then_do r f)
  then_do-Good Fits n k (e, s) f h next = rw h.0 (next h.1)

  module _ (d : IsDisk) (limit : ℕ) (Fits : ℕ → Store → Type 0) (roomy : IsRoomy limit Fits) where
    remove_found-Good :
        (n fid : ℕ) (o : Option File) (s : Store)
        → IsPlain fid
        → search fid s ≡ o
        → Fits n s
        → Good Fits n (remove_found fid o s)
    unfolding remove_found
    remove_found-Good n fid none s plain e h = (refl, h)
    remove_found-Good n fid (some file) s plain e h =
        rw plain.3 (roomy.deletes n fid file s plain e h)

    remove_file-Good :
        (n fid : ℕ) (s : Store) → IsPlain fid → Fits n s → Good Fits n (remove_file fid s)
    unfolding remove_file
    remove_file-Good n fid s plain h = remove_found-Good n fid (search fid s) s plain refl h

    put_new-Good :
        (n fid : ℕ) (b : List ℕ) (s : Store) (r : Option File × Store)
        → create fid s ≡ r
        → IsPlain fid
        → search fid s ≡ none
        → length b ≤ limit
        → Fits (suc n) s
        → Good Fits n (put_new b r)
    unfolding put_new
    put_new-Good n fid b s (none, t) e plain gone small h =
        let made = roomy.creates n fid s plain gone h in
        absurd (ground (sym (ap (λ (r : Option File × Store). r.0) e) ∙ made.1, arith))
    put_new-Good n fid b s (some file, t) e plain gone small h =
        let store = ap (λ (r : Option File × Store). r.1) e in
        let made = roomy.creates n fid s plain gone h in
        let found = d.create_found fid file s t plain e in
        let empty : NoData fid t = rw store at (d.create_empty fid s plain gone) in
        roomy.puts n fid file b t plain found (empty file found) small (rw store at made.2)

    replace_file-Good :
        (n fid : ℕ) (b : List ℕ) (s : Store)
        → IsPlain fid
        → length b ≤ limit
        → Fits (suc n) s
        → Good Fits n (replace_file fid b s)
    unfolding replace_file
    replace_file-Good n fid b s plain small h =
        let removed = remove_file-Good (suc n) fid s plain h in
        then_do-Good Fits (suc n) n (remove_file fid s) (λ t. put_new b (create fid t)) removed
          (λ fits.
            put_new-Good n fid b (remove_file fid s).1 (create fid (remove_file fid s).1) refl plain
              (remove_file-gone d fid plain s removed.0) small fits)

    synced-Good : (n : ℕ) (r : Bool × Store) → r.0 ≡ true → Fits n r.1 → Good Fits n (synced r)
    unfolding synced
    synced-Good n (true, s) e h = (refl, h)
    synced-Good n (false, s) e h = absurd (ground arith)

    sync-Good : (n : ℕ) (s : Store) → Fits n s → Good Fits n (sync s)
    unfolding sync
    sync-Good n s h = let r = roomy.syncs n 5000 s h in synced-Good n (commit_sync 5000 s) r.0 r.1

    module _ (l : Layout) (auth : Authenticator) (m : IsMac auth) (plain : ArePlain l)
        (slot : ℕ) where
      clear_slot-Good : (n : ℕ) (s : Store) → Fits n s → Good Fits n (clear_slot l slot s)
      unfolding clear_slot
      clear_slot-Good n s h =
          let first = remove_file (at_slot slot l.commit_fid) s in
          then_do-Good Fits n n first (remove_file (at_slot slot l.record_fid))
            (remove_file-Good n (at_slot slot l.commit_fid) s (plain slot).0 h)
            (remove_file-Good n (at_slot slot l.record_fid) first.1 (plain slot).1)

      write_record-Good :
          (g : ℕ) (payload : List ℕ) (s : Store)
          → length payload + 48 < 2 ^ 32
          → length payload + 48 ≤ limit
          → Fits 2 s
          → Good Fits 1 (write_record l auth slot g g payload s)
      unfolding write_record write_sealed record_tag
      write_record-Good g payload s fits small two =
          let big : ltb (0xffffffff - record_header_size - auth_tag_size) (length payload) ≡ false =
            ground (arith, fits) in
          let header = record_header l slot g g (length payload) in
          rw
            (
              big,
              roomy.room 1 (record_header_size + length payload + auth_tag_size) s
                  (omega (arith, small)) two,
              auth_buffer-mac auth m header payload,
            )
            (replace_file-Good 1 (at_slot slot l.record_fid) _ s (plain slot).1
              (omega (
                arith,
                length-append (header ++ payload) (m.mac (header ++ payload)),
                length-append header payload,
                record_header-length l slot g g (length payload),
                m.tag_length (header ++ payload),
                small,
              ))
              two)

      write_commit-Good :
          (g : ℕ) (r : RecordRef) (s : Store)
          → length r.ref_tag ≡ 16
          → 64 ≤ limit
          → Fits 1 s
          → Good Fits 0 (write_commit l auth slot g r s)
      unfolding write_commit write_sealed
      write_commit-Good g r s tagged small h =
          let header = commit_header l slot g r in
          rw (auth_buffer-mac auth m header []) (
            replace_file-Good 0 (at_slot slot l.commit_fid) _ s (plain slot).0
              (omega (
                arith,
                length-append header (m.mac (header ++ [])),
                commit_header-length l slot g r tagged,
                m.tag_length (header ++ []),
                small,
              ))
              h)

      prepare-Good :
          (g : ℕ) (payload : List ℕ) (s : Store)
          → length payload + 48 < 2 ^ 32
          → length payload + 48 ≤ limit
          → Fits 2 s
          → Good Fits 1 (prepare l auth slot g payload s)
      unfolding prepare
      prepare-Good g payload s fits small h =
          let start = clear_slot l slot s in
          let write = write_record l auth slot g g payload in
          then_do-Good Fits 1 1 (then_do start write) sync
            (then_do-Good Fits 2 1 start write (clear_slot-Good 2 s h)
              (write_record-Good g payload start.1 fits small))
            (sync-Good 1 (then_do start write).1)

      txn_finish-Good :
          (g : ℕ) (r : RecordRef) (prepared : Status × Store)
          → length r.ref_tag ≡ 16
          → 64 ≤ limit
          → Good Fits 1 prepared
          → Good Fits 0 (txn_finish l auth slot g r prepared)
      unfolding txn_finish
      txn_finish-Good g r prepared tagged small h =
          let write = write_commit l auth slot g r in
          then_do-Good Fits 0 0 (then_do prepared write) sync
            (then_do-Good Fits 1 0 prepared write h (write_commit-Good g r prepared.1 tagged small))
            (sync-Good 0 (then_do prepared write).1)

    tagged :
        (l : Layout) (auth : Authenticator) (m : IsMac auth) (slot g : ℕ) (payload : List ℕ)
        → length (tag_or_empty l auth (record_tag l auth slot g g payload)) ≡ 16
    unfolding record_tag tag_or_empty
    tagged l auth m slot g payload =
        let header = record_header l slot g g (length payload) in
        rw (auth_buffer-mac auth m header payload) (m.tag_length (header ++ payload))

    txn_put_at-Good :
        (l : Layout) (auth : Authenticator) (payload : List ℕ) (s : Store) (p : ℕ × ℕ)
        → IsMac auth
        → ArePlain l
        → length payload + 48 < 2 ^ 32
        → length payload + 48 ≤ limit
        → 64 ≤ limit
        → Fits 2 s
        → (txn_put_at l auth payload s (done p)).0 ≡ ok
    unfolding txn_put_at new_ref
    txn_put_at-Good l auth payload s (slot, g) m plain fits small commit h =
        (txn_finish-Good l auth m plain slot g _ (prepare l auth slot g payload s)
          (tagged l auth m slot g payload) commit
          (prepare-Good l auth m plain slot g payload s fits small h)).0

    next_known :
        (st : TxnState) → st.generation + 1 < 2 ^ 32 → (p : ℕ × ℕ) × (next_state (done st) ≡ done p)
    unfolding next_state
    next_known st small =
        let last : (st.generation == 0xffffffff) ≡ false = ground (arith, small) in
        ((bit_xor st.commit_slot 1, st.generation + 1), rw last refl)

    put_ok :
        (l : Layout) (auth : Authenticator) (payload : List ℕ) (s : Store) (st : TxnState)
        → IsMac auth
        → IsLayout l
        → layout_valid l ≡ true
        → recover l auth s ≡ done st
        → st.generation + 1 < 2 ^ 32
        → length payload + 48 < 2 ^ 32
        → length payload + 48 ≤ limit
        → 64 ≤ limit
        → Fits 2 s
        → (txn_put l auth payload s).0 ≡ ok
    unfolding txn_put
    put_ok l auth payload s st m v valid start generation fits small commit h =
        let big : ltb 0xffffffff (length payload) ≡ false = ground (arith, fits) in
        let p = next_known st generation in
        rw (valid, big, start, p.1)
          (txn_put_at-Good l auth payload s p.0 m (layout_valid-ArePlain l v valid) fits small
            commit h)

  pub txn_put_succeeds :
      (d : IsDisk) (limit : ℕ) (Fits : ℕ → Store → Type 0) (roomy : IsRoomy limit Fits)
      (layout : Layout) (auth : Authenticator) (m : IsMac auth) (v : IsLayout layout)
      (payload : List ℕ) (s : Store) (st : TxnState)
      → layout_valid layout ≡ true
      → recover layout auth s ≡ done st
      → IsOwn layout auth st
      → st.generation + 1 < 2 ^ 32
      → length payload + 48 < 2 ^ 32
      → length payload + 48 ≤ limit
      → 64 ≤ limit
      → Fits 2 s
      → ((txn_put layout auth payload s).0 ≡ ok)
        × (recover layout auth (txn_put layout auth payload s).1
            ≡ done (put_state st (length payload)))
  txn_put_succeeds d limit Fits roomy layout auth m v payload s st valid start own generation fits
        small commit h =
      let good =
        put_ok d limit Fits roomy layout auth payload s st m v valid start generation fits small
          commit h in
      (
        good,
        elim (txn_put_atomic d layout auth m v payload s st valid start own generation fits) [
          | inl old ↦ absurd (old.0 good)
          | inr new ↦ new.0
        ],
      )
