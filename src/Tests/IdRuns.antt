-- ===== src/Tests/IdRuns.antt =====
-- Runs of the allocation of record identifiers on a disk in memory.
use key_wallet.Base.{◌≡◌, inl, inr, refl, some, length, arith}
use key_wallet.Bytes.{ok}
use key_wallet.Bytes.Wide.{put_uint64_be}
use key_wallet.Txn.Recover.{recover}
use key_wallet.Objects.Storage.{done}
use key_wallet.Txn.Write.{txn_put}
use key_wallet.Txn.Parts.{HasRecord}
use key_wallet.Txn.Atomic.{put_state, txn_put_atomic}
use key_wallet.Txn.Smooth.{txn_put_succeeds}
use key_wallet.Txn.Refines.{cell}
use key_wallet.Container.{id_state, record_id_allocate}
use key_wallet.Container.Fresh.{
  LastId, Allocated, Increasing, allocate_all, record_id_allocate_lem, allocate_all-Increasing,
}
use key_wallet.Tests.TxnBench.{Contents, memory, memory-IsDisk, summing, summing-IsMac}
use key_wallet.Tests.TxnRuns.{
  vault, vault_valid, vault-IsLayout, first, first_state, recovers_first, first-IsOwn, small_table,
  AnyRoom, memory-IsRoomy,
}

fifth_length : length (id_state 5) ≡ 16
unfolding id_state put_uint64_be
fifth_length = refl

-- The identifier 5 was handed out last.
abbrev fifth : Contents
fifth = (txn_put vault summing (id_state 5) first).1

fifth_put :
    ((txn_put vault summing (id_state 5) first).0 ≡ ok)
    × (recover vault summing fifth ≡ done (put_state first_state (length (id_state 5))))
fifth_put =
    txn_put_succeeds memory-IsDisk 100 AnyRoom memory-IsRoomy vault summing summing-IsMac
      vault-IsLayout (id_state 5) first first_state vault_valid recovers_first first-IsOwn
      (omega arith) (omega (arith, fifth_length)) (omega (arith, fifth_length)) (omega arith) tt

fifth-HasRecord : HasRecord vault 1 (id_state 5) fifth
fifth-HasRecord =
    elim (txn_put_atomic memory-IsDisk vault summing summing-IsMac vault-IsLayout (id_state 5) first
      first_state vault_valid recovers_first first-IsOwn (omega arith)
      (omega (arith, fifth_length))) [ inl old ↦ absurd (old.0 fifth_put.0) | inr new ↦ new.1 ]

fifth-LastId : LastId memory-IsDisk vault summing summing-IsMac vault-IsLayout vault_valid 5 2 fifth
fifth-LastId = record {
  object = cell 2 (some (id_state 5));
  represents = record {
    current = put_state first_state (length (id_state 5));
    recovered = fifth_put.1;
    own = inr refl;
    same_generation = refl;
    shows = (refl, refl, fifth-HasRecord);
  };
  stored = refl;
  bounded = omega arith;
}

record_id_allocate_lem_example :
    Allocated memory-IsDisk vault summing summing-IsMac vault-IsLayout vault_valid 5 4 (
      (record_id_allocate vault summing small_table fifth).0,
      (record_id_allocate vault summing small_table fifth).2,
    )
record_id_allocate_lem_example =
    record_id_allocate_lem memory-IsDisk vault summing summing-IsMac vault-IsLayout vault_valid 5 2
      fifth small_table fifth-LastId (omega arith) (omega arith) (omega arith)

allocate_all-Increasing_example :
    Increasing memory-IsDisk vault summing summing-IsMac vault-IsLayout vault_valid 5 (
      allocate_all memory-IsDisk vault summing summing-IsMac vault-IsLayout vault_valid 3
        small_table fifth)
allocate_all-Increasing_example =
    allocate_all-Increasing memory-IsDisk vault summing summing-IsMac vault-IsLayout vault_valid 3 5
      2 fifth small_table fifth-LastId (omega arith) (omega arith) (omega arith)
