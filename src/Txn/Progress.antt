-- ===== src/Txn/Progress.antt =====
-- FidoAuth/pico-keys-sdk/src/fs/object_store_txn.c: the two slots on the way of a put or a deletion up to its commit.
use key_wallet.Base.{
  ◌-◌, ℕ, zero, suc, ◌+◌, ◌<◌, ◌≡◌, ◌≢◌, ◌⊎◌, inl, inr, refl, sym, ap, ◌∙◌, true, List, length,
  ◌++◌, Bool-cases, arith, length-append, not, ltb,
}
use key_wallet.Bytes.{Status, ok}
use key_wallet.Objects.Storage.{Files, Outcome, done}
use key_wallet.Txn.{
  Layout, at_slot, TxnState, Authenticator, record_header, record_header_size, auth_tag_size,
  layout_valid, fids_valid,
}
use key_wallet.Txn.Recover.{recover}
use key_wallet.Txn.Frame.{parse_commit-all}
use key_wallet.Txn.Crash.{
  NoData, IsSpoiled, NoData-IsSpoiled, SameSlot, IsOwn, other, recover-IsPassed,
  IsSpoiled-parse_commit,
}
use key_wallet.Txn.Headers.{IsLayout}
use key_wallet.Txn.Write.{
  then_do, remove_file, replace_file, sync, clear_slot, write_sealed, record_tag, write_record,
  prepare,
}
use key_wallet.Txn.Disk.{
  KeepsOthers, KeepsAll, IsPlain, Contains, IsDisk, SameFile-refl, SameFile-trans, SameFile-NoData,
  SameFile-Contains, remove_file-KeepsOthers, write_sealed-KeepsOthers, sync-KeepsAll,
}
use key_wallet.Txn.Replace.{
  then_do-ok, then_do-cases, remove_file-ends, remove_file-NoData, replace_file-Contains,
}

module _ ⦃files : Files⦄ where
  open files use {Store, File, search, has_data, allocates}

  abbrev pub ArePlain : Layout → Type 0
  ArePlain l =
      (slot : ℕ) → IsPlain (at_slot slot l.commit_fid) × IsPlain (at_slot slot l.record_fid)

  pub layout_valid-ArePlain : (l : Layout) → IsLayout l → layout_valid l ≡ true → ArePlain l
  unfolding layout_valid fids_valid
  layout_valid-ArePlain l v h zero = ground (arith, v.commit_not_meta 0, v.record_not_meta 0)
  layout_valid-ArePlain l v h (suc slot) = ground (arith, v.commit_not_meta 1, v.record_not_meta 1)

  separate :
      (l : Layout) (slot : ℕ)
      → layout_valid l ≡ true
      → (at_slot slot l.commit_fid ≢ at_slot (other slot) l.commit_fid)
        × (at_slot slot l.record_fid ≢ at_slot (other slot) l.commit_fid)
        × (at_slot slot l.commit_fid ≢ at_slot (other slot) l.record_fid)
        × (at_slot slot l.record_fid ≢ at_slot (other slot) l.record_fid)
        × (at_slot (other slot) l.commit_fid ≢ at_slot (other slot) l.record_fid)
  unfolding layout_valid fids_valid
  separate l zero h = ground arith
  separate l (suc slot) h = ground arith

  -- The files of a slot are not those of the other one, and all four are plain ones.
  abbrev pub Apart : Layout → ℕ → Type 0
  Apart l slot =
      (at_slot slot l.commit_fid ≢ at_slot (other slot) l.commit_fid)
      × (at_slot slot l.record_fid ≢ at_slot (other slot) l.commit_fid)
      × (at_slot slot l.commit_fid ≢ at_slot (other slot) l.record_fid)
      × (at_slot slot l.record_fid ≢ at_slot (other slot) l.record_fid)
      × (at_slot (other slot) l.commit_fid ≢ at_slot (other slot) l.record_fid)
      × ArePlain l

  pub layout_valid-Apart :
      (l : Layout) (slot : ℕ) → IsLayout l → layout_valid l ≡ true → Apart l slot
  layout_valid-Apart l slot v h =
      let p = separate l slot h in (p.0, p.1, p.2, p.3, p.4, layout_valid-ArePlain l v h)

  recover-KeepsAll :
      (layout : Layout) (auth : Authenticator) (s t : Store)
      → ArePlain layout
      → KeepsAll s t
      → recover layout auth t ≡ recover layout auth s
  unfolding recover
  recover-KeepsAll layout auth s t plain kept =
      let commits = λ (slot : ℕ). kept (at_slot slot layout.commit_fid) (plain slot).0 in
      let records = λ (slot : ℕ). kept (at_slot slot layout.record_fid) (plain slot).1 in
      rw
        (
          parse_commit-all layout auth s t commits records 0,
          parse_commit-all layout auth s t commits records 1,
        )
        refl

  module _ (d : IsDisk) (layout : Layout) (auth : Authenticator) (st : TxnState)
      (apart : Apart layout st.commit_slot) (s : Store) where
    abbrev pub commit_file : ℕ
    commit_file = at_slot (other st.commit_slot) layout.commit_fid

    abbrev pub record_file : ℕ
    record_file = at_slot (other st.commit_slot) layout.record_fid

    commit_file-IsPlain : IsPlain commit_file
    commit_file-IsPlain = (apart.5 (other st.commit_slot)).0

    record_file-IsPlain : IsPlain record_file
    record_file-IsPlain = (apart.5 (other st.commit_slot)).1

    current_commit : IsPlain (at_slot st.commit_slot layout.commit_fid)
    current_commit = (apart.5 st.commit_slot).0

    current_record : IsPlain (at_slot st.commit_slot layout.record_fid)
    current_record = (apart.5 st.commit_slot).1

    -- The current slot is as it was in `s`, and the other one has no commit.
    abbrev pub Quiet : Store → Type 0
    Quiet t = SameSlot layout auth st.commit_slot s t × NoData commit_file t

    -- No file is changed, or the current slot is as it was and the commit of the other one is gone or
    -- was being cleared.
    abbrev pub Unharmed : Store → Type 0
    Unharmed t = (SameSlot layout auth st.commit_slot s t × IsSpoiled commit_file t) ⊎ KeepsAll s t

    pub Quiet-Unharmed : (t : Store) → Quiet t → Unharmed t
    Quiet-Unharmed t q = inl (q.0, NoData-IsSpoiled commit_file t q.1)

    pub Unharmed-recover :
        (t : Store)
        → IsOwn layout auth st
        → recover layout auth s ≡ done st
        → Unharmed t
        → recover layout auth t ≡ done st
    Unharmed-recover t own h (inl q) =
        recover-IsPassed layout auth s t st own h q.0
          (IsSpoiled-parse_commit layout auth (other st.commit_slot) t q.1)
    Unharmed-recover t own h (inr kept) = recover-KeepsAll layout auth s t apart.5 kept ∙ h

    Quiet-record : (t u : Store) → Quiet t → KeepsOthers record_file t u → Quiet u
    Quiet-record t u q keeps = (
      (
        SameFile-trans (at_slot st.commit_slot layout.commit_fid) s t u q.0.0
            (keeps (at_slot st.commit_slot layout.commit_fid) current_commit apart.2),
        SameFile-trans (at_slot st.commit_slot layout.record_fid) s t u q.0.1
            (keeps (at_slot st.commit_slot layout.record_fid) current_record apart.3),
      ),
      SameFile-NoData commit_file t u (keeps commit_file commit_file-IsPlain apart.4) q.1,
    )

    pub same_slot :
        (t u : Store)
        → SameSlot layout auth st.commit_slot s t
        → KeepsOthers commit_file t u
        → SameSlot layout auth st.commit_slot s u
    same_slot t u same keeps = (
      SameFile-trans (at_slot st.commit_slot layout.commit_fid) s t u same.0
          (keeps (at_slot st.commit_slot layout.commit_fid) current_commit apart.0),
      SameFile-trans (at_slot st.commit_slot layout.record_fid) s t u same.1
          (keeps (at_slot st.commit_slot layout.record_fid) current_record apart.1),
    )

    same_start : SameSlot layout auth st.commit_slot s s
    same_start = (
      SameFile-refl (at_slot st.commit_slot layout.commit_fid) s,
      SameFile-refl (at_slot st.commit_slot layout.record_fid) s,
    )

    Quiet-KeepsAll : (t u : Store) → Quiet t → KeepsAll t u → Quiet u
    Quiet-KeepsAll t u q kept = Quiet-record t u q (λ g p n. kept g p)

    cleared : (remove_file commit_file s).0 ≡ ok → Quiet (remove_file commit_file s).1
    cleared h = (
      same_slot s (remove_file commit_file s).1 same_start
          (remove_file-KeepsOthers d commit_file commit_file-IsPlain s),
      remove_file-NoData d commit_file commit_file-IsPlain s h,
    )

    -- Clearing the slot: the commit goes first.
    pub clear_slot-Quiet :
        (clear_slot layout (other st.commit_slot) s).0 ≡ ok
        → Quiet (clear_slot layout (other st.commit_slot) s).1
    unfolding clear_slot
    clear_slot-Quiet h =
        let first = remove_file commit_file s in
        let p = then_do-ok first (remove_file record_file) h in
        rw p.2 (
          Quiet-record first.1 (remove_file record_file first.1).1 (cleared p.0)
            (remove_file-KeepsOthers d record_file record_file-IsPlain first.1))

    pub clear_slot-Unharmed : Unharmed (clear_slot layout (other st.commit_slot) s).1
    unfolding clear_slot
    clear_slot-Unharmed =
        let first = remove_file commit_file s in
        elim (then_do-cases first (remove_file record_file)) [
          | inl stopped ↦
              rw stopped.1 (elim (remove_file-ends d commit_file commit_file-IsPlain s) [
                | inl empty ↦ inl (
                  same_slot s first.1 same_start
                      (remove_file-KeepsOthers d commit_file commit_file-IsPlain s),
                  empty,
                )
                | inr kept ↦ inr kept
              ])
          | inr went ↦ rw went.1 (
              Quiet-Unharmed (remove_file record_file first.1).1 (
                Quiet-record first.1 (remove_file record_file first.1).1 (cleared went.0)
                  (remove_file-KeepsOthers d record_file record_file-IsPlain first.1)))
        ]

    -- A record that is not written stops before the file; else its bytes and its tag are put.
    write_record-cases :
        (g : ℕ) (payload : List ℕ) (t : Store)
        → (((write_record layout auth (other st.commit_slot) g g payload t).0 ≢ ok)
            × ((write_record layout auth (other st.commit_slot) g g payload t).1 ≡ t))
          ⊎ (write_record layout auth (other st.commit_slot) g g payload t
              ≡ write_sealed record_file
                  (record_header layout (other st.commit_slot) g g (length payload) ++ payload)
                  (record_tag layout auth (other st.commit_slot) g g payload)
                  t)
    unfolding write_record
    write_record-cases g payload t =
        elim (Bool-cases (ltb (0xffffffff - record_header_size - auth_tag_size) (length payload))) [
          | inl large ↦ rw large (inl (λ e. cc, refl))
          | inr small ↦
              elim (Bool-cases
                (not (allocates (record_header_size + length payload + auth_tag_size) t))) [
                  | inl full ↦ rw (small, full) (inl (λ e. cc, refl))
                  | inr room ↦ rw (small, room) (inr refl)
                ]
        ]

    write_record-Quiet :
        (g : ℕ) (payload : List ℕ) (t : Store)
        → Quiet t
        → Quiet (write_record layout auth (other st.commit_slot) g g payload t).1
    write_record-Quiet g payload t q = elim (write_record-cases g payload t) [
      | inl stopped ↦ rw stopped.1 q
      | inr put ↦ rw put (
          Quiet-record t
            (write_sealed record_file
              (record_header layout (other st.commit_slot) g g (length payload) ++ payload)
              (record_tag layout auth (other st.commit_slot) g g payload) t).1
            q
            (write_sealed-KeepsOthers d record_file record_file-IsPlain
              (record_header layout (other st.commit_slot) g g (length payload) ++ payload)
              (record_tag layout auth (other st.commit_slot) g g payload) t))
    ]

    pub sync-Quiet : (t : Store) → Quiet t → Quiet (sync t).1
    sync-Quiet t q = Quiet-KeepsAll t (sync t).1 q (sync-KeepsAll d t)

    -- One more part of a chain leaves the current slot unharmed if it does so after a success.
    pub then_do-Unharmed :
        (r : Status × Store) (k : Store → Status × Store)
        → Unharmed r.1
        → (r.0 ≡ ok → Unharmed (k r.1).1)
        → Unharmed (then_do r k).1
    then_do-Unharmed r k h next = elim (then_do-cases r k) [
      | inl stopped ↦ rw stopped.1 h
      | inr went ↦ rw went.1 (next went.0)
    ]

    module _ (g : ℕ) (payload : List ℕ) where
      abbrev recorded : Status × Store
      recorded =
          then_do (clear_slot layout (other st.commit_slot) s)
            (write_record layout auth (other st.commit_slot) g g payload)

      recorded-Quiet : recorded.0 ≡ ok → Quiet recorded.1
      recorded-Quiet h =
          let start = clear_slot layout (other st.commit_slot) s in
          let p =
            then_do-ok start (write_record layout auth (other st.commit_slot) g g payload) h in
          rw p.2 (write_record-Quiet g payload start.1 (clear_slot-Quiet p.0))

      recorded-Unharmed : Unharmed recorded.1
      recorded-Unharmed =
          let start = clear_slot layout (other st.commit_slot) s in
          then_do-Unharmed start (write_record layout auth (other st.commit_slot) g g payload)
            clear_slot-Unharmed
            (λ e.
              Quiet-Unharmed (write_record layout auth (other st.commit_slot) g g payload start.1).1
                (write_record-Quiet g payload start.1 (clear_slot-Quiet e)))

      -- Before its commit is written, a put has not harmed the current slot, however it ended.
      pub prepare-Unharmed : Unharmed (prepare layout auth (other st.commit_slot) g payload s).1
      unfolding prepare
      prepare-Unharmed =
          then_do-Unharmed recorded sync recorded-Unharmed
            (λ e. Quiet-Unharmed (sync recorded.1).1 (sync-Quiet recorded.1 (recorded-Quiet e)))

      pub prepare-Quiet :
          (prepare layout auth (other st.commit_slot) g payload s).0 ≡ ok
          → Quiet (prepare layout auth (other st.commit_slot) g payload s).1
      unfolding prepare
      prepare-Quiet h =
          let p = then_do-ok recorded sync h in rw p.2 (sync-Quiet recorded.1 (recorded-Quiet p.0))

      written :
          (tag : List ℕ)
          → record_tag layout auth (other st.commit_slot) g g payload ≡ done tag
          → 0 < length (record_header layout (other st.commit_slot) g g (length payload) ++ payload)
          → (t : Store) → (write_record layout auth (other st.commit_slot) g g payload t).0 ≡ ok
          → Contains record_file
              ((record_header layout (other st.commit_slot) g g (length payload) ++ payload) ++ tag)
              (write_record layout auth (other st.commit_slot) g g payload t).1
      unfolding write_sealed
      written tag e full t h = elim (write_record-cases g payload t) [
        | inl stopped ↦ absurd (stopped.0 h)
        | inr put ↦
            let bytes =
              record_header layout (other st.commit_slot) g g (length payload) ++ payload in
            let r : write_record layout auth (other st.commit_slot) g g payload t
                ≡ replace_file record_file (bytes ++ tag) t =
              put ∙ ap (λ (o : Outcome (List ℕ)). write_sealed record_file bytes o t) e in
            rw r (
              replace_file-Contains d record_file record_file-IsPlain (bytes ++ tag) t
                (omega (arith, length-append bytes tag, full))
                (ap (λ (x : Status × Store). x.0) (sym r) ∙ h))
      ]

      -- The record is there then, with its tag.
      pub prepare-Contains :
          (tag : List ℕ)
          → record_tag layout auth (other st.commit_slot) g g payload ≡ done tag
          → 0 < length (record_header layout (other st.commit_slot) g g (length payload) ++ payload)
          → (prepare layout auth (other st.commit_slot) g payload s).0 ≡ ok
          → Contains record_file
              ((record_header layout (other st.commit_slot) g g (length payload) ++ payload) ++ tag)
              (prepare layout auth (other st.commit_slot) g payload s).1
      unfolding prepare
      prepare-Contains tag e full h =
          let start = clear_slot layout (other st.commit_slot) s in
          let p = then_do-ok recorded sync h in
          let q =
            then_do-ok start (write_record layout auth (other st.commit_slot) g g payload) p.0 in
          let bytes = record_header layout (other st.commit_slot) g g (length payload) ++ payload in
          rw p.2 (
            SameFile-Contains record_file (bytes ++ tag) recorded.1 (sync recorded.1).1
              (sync-KeepsAll d recorded.1 record_file record_file-IsPlain)
              (rw q.2 (written tag e full start.1 q.1)))
