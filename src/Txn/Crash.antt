-- ===== src/Txn/Crash.antt =====
-- FidoAuth/pico-keys-sdk/src/fs/object_store_txn.c: the recovery while the slot that is not current is being written.
use key_wallet.Base.{
  ℕ, zero, suc, ◌≡◌, ◌<◌, ◌*◌, ◌⊎◌, inl, inr, refl, ◌∙◌, true, false, Option, none, some, List, ◌∷◌,
  ◌==◌, Bool-cases, ==_iff, arith,
}
use key_wallet.Bytes.{Status, file_not_found, wrong_data}
use key_wallet.Objects.Storage.{Files, Outcome, failed, done}
use key_wallet.Txn.{Layout, at_slot, TxnState, Authenticator, commit_size}
use key_wallet.Txn.Recover.{
  parse_commit, parse_commit_file, check_commit, commit_matches, recover, choose, consider,
  found_state, invalid_record,
}
use key_wallet.Txn.Frame.{SameFile, parse_commit-same, parse_commit-slot}

abbrev pub other : ℕ → ℕ
other zero = 1
other (suc slot) = 0

pub choose-eq-done :
    (first second : Outcome TxnState) {st : TxnState}
    → choose first second ≡ done st
    → (first ≡ done st) ⊎ (second ≡ done st)
unfolding choose consider found_state
choose-eq-done first second h = ground arith

pub missing : invalid_record file_not_found ≡ true
unfolding invalid_record
missing = refl

pub choose_first :
    (st : TxnState) (e : Status) → invalid_record e ≡ true → choose (done st) (failed e) ≡ done st
unfolding choose consider found_state
choose_first st e bad = rw bad refl

choose_second :
    (st : TxnState) (e : Status) → invalid_record e ≡ true → choose (failed e) (done st) ≡ done st
unfolding choose consider found_state
choose_second st e bad = rw bad refl

torn : invalid_record wrong_data ≡ true
unfolding invalid_record
torn = refl

-- No state: the slot is passed over.
abbrev pub IsPassed : Outcome TxnState → Type 0
IsPassed o = (e : Status) × (o ≡ failed e) × (invalid_record e ≡ true)

pub choose-IsPassed :
    (one two : Outcome TxnState)
    → IsPassed one
    → IsPassed two
    → choose one two ≡ failed file_not_found
unfolding choose consider found_state
choose-IsPassed one two p q = rw (p.1, q.1, p.2, q.2) refl

other_commit :
    (layout : Layout) (slot : ℕ) (b : List ℕ) → commit_matches layout slot (0 ∷ b) ≡ false
unfolding commit_matches
other_commit layout slot b = refl

module _ ⦃files : Files⦄ where
  open files use {Store, File, search, has_data, get_size, read_at}

  abbrev pub NoData : ℕ → Store → Type 0
  NoData fid s = (file : File) → search fid s ≡ some file → has_data file s ≡ false

  -- A file without data, or one whose clearing was not finished: the low byte of its length is zero, or
  -- the first byte of its payload.
  abbrev pub IsSpoiled : ℕ → Store → Type 0
  IsSpoiled fid s =
      (file : File)
      → search fid s ≡ some file
      → (has_data file s ≡ false)
        ⊎ ((k : ℕ) × (get_size file s ≡ 256 * k))
        ⊎ ((n : ℕ) → n < get_size file s → (b : List ℕ) × (read_at file 0 (suc n) s ≡ done (0 ∷ b)))

  pub NoData-IsSpoiled : (fid : ℕ) (s : Store) → NoData fid s → IsSpoiled fid s
  NoData-IsSpoiled fid s h file e = inl (h file e)

  module _ (layout : Layout) (auth : Authenticator) where
    no_commit_file :
        (slot : ℕ) (s : Store) (o : Option File)
        → ((file : File) → o ≡ some file → has_data file s ≡ false)
        → parse_commit_file layout auth slot o s ≡ failed file_not_found
    unfolding parse_commit_file
    no_commit_file slot s none h = refl
    no_commit_file slot s (some file) h = rw (h file refl) refl

    pub NoData-parse_commit :
        (slot : ℕ) (s : Store)
        → NoData (at_slot slot layout.commit_fid) s
        → parse_commit layout auth slot s ≡ failed file_not_found
    unfolding parse_commit
    NoData-parse_commit slot s h =
        no_commit_file slot s (search (at_slot slot layout.commit_fid) s) h

    -- The file that was being cleared is no commit.
    spoiled_data :
        (slot : ℕ) (s : Store) (file : File)
        → has_data file s ≡ true
        → ((k : ℕ) × (get_size file s ≡ 256 * k))
          ⊎ ((n : ℕ)
              → n < get_size file s
              → (b : List ℕ) × (read_at file 0 (suc n) s ≡ done (0 ∷ b)))
        → parse_commit_file layout auth slot (some file) s ≡ failed wrong_data
    unfolding parse_commit_file check_commit
    spoiled_data slot s file there h = elim (Bool-cases (get_size file s == commit_size)) [
      | inl right ↦
          (let size : get_size file s ≡ 64 = (==_iff (get_size file s) commit_size).0 right in
            elim h [
              | inl short ↦ absurd (omega (arith, size, short.1))
              | inr zeroed ↦
                  (let r = zeroed 63 (omega (arith, size)) in
                    rw (there, right, r.1, other_commit layout slot r.0) refl)
            ])
      | inr wrong ↦ rw (there, wrong) refl
    ]

    spoiled_file :
        (slot : ℕ) (s : Store) (o : Option File)
        → ((file : File)
            → o ≡ some file
            → (has_data file s ≡ false)
              ⊎ ((k : ℕ) × (get_size file s ≡ 256 * k))
              ⊎ ((n : ℕ)
                  → n < get_size file s
                  → (b : List ℕ) × (read_at file 0 (suc n) s ≡ done (0 ∷ b))))
        → IsPassed (parse_commit_file layout auth slot o s)
    unfolding parse_commit_file
    spoiled_file slot s none h = (file_not_found, refl, missing)
    spoiled_file slot s (some file) h = elim (Bool-cases (has_data file s)) [
      | inl there ↦ elim (h file refl) [
        | inl gone ↦ absurd (ground (arith, there, gone))
        | inr rest ↦ (wrong_data, spoiled_data slot s file there rest, torn)
      ]
      | inr gone ↦ (file_not_found, rw gone refl, missing)
    ]

    pub IsSpoiled-parse_commit :
        (slot : ℕ) (s : Store)
        → IsSpoiled (at_slot slot layout.commit_fid) s
        → IsPassed (parse_commit layout auth slot s)
    unfolding parse_commit
    IsSpoiled-parse_commit slot s h =
        spoiled_file slot s (search (at_slot slot layout.commit_fid) s) h

    -- The record of a state that this code wrote is in the slot of its commit.
    abbrev pub IsOwn : TxnState → Type 0
    IsOwn st = (st.deleted ≡ true) ⊎ (st.record_slot ≡ st.commit_slot)

    -- The files of the slot are as they were.
    abbrev pub SameSlot : ℕ → Store → Store → Type 0
    SameSlot slot s t =
        SameFile (at_slot slot layout.commit_fid) s t
        × SameFile (at_slot slot layout.record_fid) s t

    pub SameSlot-parse_commit :
        (slot : ℕ) (s t : Store) (st : TxnState)
        → IsOwn st
        → parse_commit layout auth slot s ≡ done st
        → SameSlot slot s t
        → parse_commit layout auth slot t ≡ done st
    SameSlot-parse_commit slot s t st own h same =
        parse_commit-same layout auth slot s t h same.0 (own_record own)
      where
        own_record :
            IsOwn st → (st.deleted ≡ true) ⊎ SameFile (at_slot st.record_slot layout.record_fid) s t
        own_record (inl gone) = inl gone
        own_record (inr e) = inr (rw (e ∙ parse_commit-slot layout auth slot s h) same.1)

    -- The current state, one that this code wrote, is recovered while the other slot is passed over.
    pub recover-IsPassed :
        (s t : Store) (st : TxnState)
        → IsOwn st
        → recover layout auth s ≡ done st
        → SameSlot st.commit_slot s t
        → IsPassed (parse_commit layout auth (other st.commit_slot) t)
        → recover layout auth t ≡ done st
    unfolding recover
    recover-IsPassed s t st own h same passed =
        elim (choose-eq-done (parse_commit layout auth 0 s) (parse_commit layout auth 1 s) h) [
          | inl first ↦
              (let slot = parse_commit-slot layout auth 0 s first in
                let p : IsPassed (parse_commit layout auth 1 t) = rw slot at passed in
                rw (SameSlot-parse_commit 0 s t st own first (rw slot at same), p.1)
                  (choose_first st p.0 p.2))
          | inr second ↦
              (let slot = parse_commit-slot layout auth 1 s second in
                let p : IsPassed (parse_commit layout auth 0 t) = rw slot at passed in
                rw (SameSlot-parse_commit 1 s t st own second (rw slot at same), p.1)
                  (choose_second st p.0 p.2))
        ]

    -- Where the current state is one that this code wrote (it is deleted, or its record is in the slot of
    -- its commit): from a store in which the commit file and the record file of its slot are as they
    -- were, and the commit file of the other slot has no data, that state is recovered.
    pub recover-SameSlot :
        (s t : Store) (st : TxnState)
        → IsOwn st
        → recover layout auth s ≡ done st
        → SameSlot st.commit_slot s t
        → NoData (at_slot (other st.commit_slot) layout.commit_fid) t
        → recover layout auth t ≡ done st
    recover-SameSlot s t st own h same quiet =
        recover-IsPassed s t st own h same
          (file_not_found, NoData-parse_commit (other st.commit_slot) t quiet, missing)
