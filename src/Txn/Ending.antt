-- ===== src/Txn/Ending.antt =====
-- FidoAuth/pico-keys-sdk/src/fs/object_store_txn.c: the two slots when the new commit is written.
use key_wallet.Base.{
  ℕ, ◌<◌, ◌≡◌, ◌≢◌, inl, inr, ap, List, [], ◌++◌, length, Bool-cases, arith, length-append,
}
use key_wallet.Bytes.{Status, ok}
use key_wallet.Policy.{is_ok}
use key_wallet.Objects.Storage.{Files, Outcome, done}
use key_wallet.Txn.{Layout, at_slot, TxnState, Authenticator, RecordRef, commit_header, auth_buffer}
use key_wallet.Txn.Crash.{other}
use key_wallet.Txn.Write.{then_do, replace_file, sync, write_sealed, write_commit, txn_finish}
use key_wallet.Txn.Disk.{
  is_ok-true, is_ok-false, KeepsOthers, Contains, IsDisk, SameFile-trans, SameFile-Contains,
  replace_file-KeepsOthers, sync-KeepsAll,
}
use key_wallet.Txn.Replace.{then_do-cases, replace_file-Contains, replace_file-IsSpoiled}
use key_wallet.Txn.Progress.{Apart, Quiet, Unharmed, same_slot}

module _ ⦃files : Files⦄ where
  open files use {Store, File}

  module _ (d : IsDisk) (layout : Layout) (auth : Authenticator) (st : TxnState)
      (apart : Apart layout st.commit_slot) (s : Store) where
    abbrev commit_file : ℕ
    commit_file = at_slot (other st.commit_slot) layout.commit_fid

    -- How the writing of a commit with the bytes `b` ends, from a store where all before went well.
    pub data Ending (b : List ℕ) (t : Store) (r : Status × Store) : Type 0 where
      stopped : r.0 ≢ ok → Unharmed d layout auth st apart s r.1 → Ending b t r
      committed : Contains commit_file b r.1 → KeepsOthers commit_file t r.1 → Ending b t r

    commit-Ending :
        (b : List ℕ) (t : Store)
        → 0 < length b
        → Quiet d layout auth st apart s t
        → Ending b t (replace_file commit_file b t)
    commit-Ending b t full q =
        let u = replace_file commit_file b t in
        let plain = (apart.5 (other st.commit_slot)).0 in
        let keeps = replace_file-KeepsOthers d commit_file plain b t in
        elim (Bool-cases (is_ok u.0)) [
          | inl good ↦
              committed (replace_file-Contains d commit_file plain b t full (is_ok-true u.0 good))
                keeps
          | inr bad ↦ stopped (is_ok-false u.0 bad) (
              inl (
                same_slot d layout auth st apart s t u.1 q.0 keeps,
                replace_file-IsSpoiled d commit_file plain b t q.1 (is_ok-false u.0 bad),
              ))
        ]

    Ending-after :
        (b : List ℕ) (t : Store) (r : Status × Store)
        → Ending b t r
        → r.0 ≡ ok
        → Ending b t (sync r.1)
    Ending-after b t r (stopped bad h) good = absurd (bad good)
    Ending-after b t r (committed c keeps) good =
        let kept = sync-KeepsAll d r.1 in
        committed
          (SameFile-Contains commit_file b r.1 (sync r.1).1
            (kept commit_file (apart.5 (other st.commit_slot)).0) c)
          (λ g p n. SameFile-trans g t r.1 (sync r.1).1 (keeps g p n) (kept g p))

    sync-Ending :
        (b : List ℕ) (t : Store) (r : Status × Store) → Ending b t r → Ending b t (then_do r sync)
    sync-Ending b t r h = elim (then_do-cases r sync) [
      | inl halted ↦ rw halted.1 h
      | inr went ↦ rw went.1 (Ending-after b t r h went.0)
    ]

    -- The whole of `txn_finish`: after a failure of the steps before nothing is written.
    pub txn_finish-Ending :
        (g : ℕ) (ref : RecordRef) (tag : List ℕ) (prepared : Status × Store)
        → auth_buffer auth (commit_header layout (other st.commit_slot) g ref) [] ≡ done tag
        → 0 < length (commit_header layout (other st.commit_slot) g ref)
        → Unharmed d layout auth st apart s prepared.1
        → (prepared.0 ≡ ok → Quiet d layout auth st apart s prepared.1)
        → Ending
            (commit_header layout (other st.commit_slot) g ref ++ tag)
            prepared.1
            (txn_finish layout auth (other st.commit_slot) g ref prepared)
    unfolding txn_finish write_commit write_sealed
    txn_finish-Ending g ref tag prepared e full h q =
        let header = commit_header layout (other st.commit_slot) g ref in
        let write = write_commit layout auth (other st.commit_slot) g ref in
        let put : write prepared.1 ≡ replace_file commit_file (header ++ tag) prepared.1 =
          ap (λ (o : Outcome (List ℕ)). write_sealed commit_file header o prepared.1) e in
        sync-Ending (header ++ tag) prepared.1 (then_do prepared write)
          (elim (then_do-cases prepared write) [
            | inl halted ↦ rw halted.1 (stopped halted.0 h)
            | inr went ↦
                rw (went.1, put)
                  (commit-Ending (header ++ tag) prepared.1
                    (omega (arith, length-append header tag, full)) (q went.0))
          ])
