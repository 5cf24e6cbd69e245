-- ===== src/Tests/TxnRuns.antt =====
-- Runs of the transactional store on a disk in memory.
use key_wallet.Base.{
  ℕ, zero, suc, leb, length, ◌==◌, if◌then◌else◌, ◌<◌, ◌^◌, ◌≡◌, ◌≢◌, ◌↔◌, ◌⊎◌, inl, inr, refl,
  true, false, List, [], ◌∷◌, none, some, replicate, arith,
}
use key_wallet.Bytes.{file_not_found, ok, stale_handle}
use key_wallet.Objects.Storage.{failed, done}
use key_wallet.Txn.{Layout, TxnState, at_slot, layout_valid, fids_valid}
use key_wallet.Txn.{
  record_header, commit_header, auth_buffer, tag_equal, tag_difference, auth_record, absorb,
}
use key_wallet.Bytes.{get_uint16_be, get_uint32_be, put_uint16_be, put_uint32_be}
use key_wallet.Txn.Recover.{
  recover, choose, consider, found_state, parse_commit, parse_commit_file, check_commit,
  commit_matches, commit_generation, ref_of, validate_ref, is_deleted, is_record_ref,
  validate_record, validate_file, record_file_ok, record_matches, validate_tags, state_of,
  invalid_record,
}
use key_wallet.Txn.Write.{
  txn_put, txn_delete, txn_put_at, next_state, txn_finish, prepare, write_commit, write_record,
  write_sealed, clear_slot, sync, synced, replace_file, put_new, remove_file, remove_found,
  record_tag, tag_or_empty, new_ref,
}
use key_wallet.Txn.Crash.{IsOwn, NoData, IsSpoiled, recover-SameSlot}
use key_wallet.Txn.Mac.{tag_equal_iff}
use key_wallet.Txn.Parts.{HasRecord}
use key_wallet.Txn.Atomic.{put_state, delete_state, choose-newer, txn_put_atomic, txn_delete_atomic}
use key_wallet.Txn.Open.{txn_put-read, txn_put-stale}
use key_wallet.Txn.Refines.{Cell, cell, Op, put, delete, Run, Represents, apply_ops, apply_ops-Run}
use key_wallet.Txn.First.{Blank, first_put, txn_put_first}
use key_wallet.Txn.Smooth.{IsRoomy}
use key_wallet.Txn.Draw.{txn_allocate_token-some}
use key_wallet.Txn.Handles.{
  is_found, TxnHandles, txn_open, txn_read_at, free_txn_entry, txn_entry, txn_open_state,
  txn_store_entry, txn_stored, txn_occupy, txn_allocate_token, txn_allocate_from, txn_find_handle,
  txn_find_in,
}
use key_wallet.Txn.Headers.{IsLayout}
use key_wallet.Tests.TxnBench.{
  set_at, same_contents, Contents, memory, memory-IsDisk, summing, summing-IsMac,
}

abbrev pub vault : Layout
vault = record {
  namespace_id = 1;
  object_type = 2;
  object_id = 3;
  record_fid = (0x1001, 0x1002);
  commit_fid = (0x1003, 0x1004);
}

pub vault_valid : layout_valid vault ≡ true
unfolding layout_valid fids_valid
vault_valid = refl

record_small : (slot : ℕ) → at_slot slot vault.record_fid < 2 ^ 16
record_small zero = omega arith
record_small (suc slot) = omega arith

commit_not_meta : (slot : ℕ) → at_slot slot vault.commit_fid ≢ 0xe010
commit_not_meta zero = omega arith
commit_not_meta (suc slot) = omega arith

record_not_meta : (slot : ℕ) → at_slot slot vault.record_fid ≢ 0xe010
record_not_meta zero = omega arith
record_not_meta (suc slot) = omega arith

pub vault-IsLayout : IsLayout vault
vault-IsLayout = record {
  namespace_small = omega arith;
  type_small = omega arith;
  object_small = omega arith;
  record_small = record_small;
  commit_not_meta = commit_not_meta;
  record_not_meta = record_not_meta;
}

-- The first generation, with a payload of three bytes, in slot 0.
abbrev pub first : Contents
first fid =
    if fid == 0x1001
    then some (
        80 ∷ 75 ∷ 82 ∷ 50 ∷ 1 ∷ 32 ∷ 0 ∷ 0 ∷ 0 ∷ 1 ∷ 0 ∷ 2 ∷ 0 ∷ 0 ∷ 0 ∷ 3 ∷ 0 ∷ 0 ∷ 0 ∷ 1 ∷ 0 ∷ 0
        ∷ 0 ∷ 1 ∷ 0 ∷ 0 ∷ 0 ∷ 3 ∷ 16 ∷ 1 ∷ 0 ∷ 0 ∷ 7 ∷ 8 ∷ 9 ∷ 116 ∷ 0 ∷ 0 ∷ 0 ∷ 0 ∷ 0 ∷ 0 ∷ 0 ∷ 0
        ∷ 0 ∷ 0 ∷ 0 ∷ 0 ∷ 0 ∷ 0 ∷ 0 ∷ [])
    else if fid == 0x1003
    then some (
        80 ∷ 75 ∷ 67 ∷ 50 ∷ 1 ∷ 48 ∷ 0 ∷ 127 ∷ 0 ∷ 1 ∷ 0 ∷ 2 ∷ 0 ∷ 0 ∷ 0 ∷ 3 ∷ 0 ∷ 0 ∷ 0 ∷ 1 ∷ 0 ∷ 0
        ∷ 0 ∷ 1 ∷ 16 ∷ 1 ∷ 0 ∷ 0 ∷ 0 ∷ 0 ∷ 0 ∷ 3 ∷ 116 ∷ 0 ∷ 0 ∷ 0 ∷ 0 ∷ 0 ∷ 0 ∷ 0 ∷ 0 ∷ 0 ∷ 0 ∷ 0
        ∷ 0 ∷ 0 ∷ 0 ∷ 0 ∷ 80 ∷ 0 ∷ 0 ∷ 0 ∷ 0 ∷ 0 ∷ 0 ∷ 0 ∷ 0 ∷ 0 ∷ 0 ∷ 0 ∷ 0 ∷ 0 ∷ 0 ∷ 0 ∷ [])
    else none

abbrev pub first_state : TxnState
first_state = record {
  generation = 1;
  record_id = 1;
  payload_size = 3;
  commit_slot = 0;
  record_slot = 0;
  deleted = false;
}

pub recovers_first : recover vault summing first ≡ done first_state
unfolding recover choose consider found_state parse_commit parse_commit_file check_commit
    commit_matches auth_buffer tag_equal tag_difference commit_generation ref_of validate_ref
    is_deleted is_record_ref validate_record validate_file record_file_ok record_matches
    validate_tags auth_record absorb state_of invalid_record get_uint16_be get_uint32_be
recovers_first = refl

abbrev second : List ℕ
second = 4 ∷ 5 ∷ []

abbrev pub small_table : TxnHandles
small_table = record { entries = free_txn_entry ∷ free_txn_entry ∷ []; next_handle = 1 }

abbrev opened_table : TxnState → TxnHandles
opened_table st = record { entries = txn_entry vault st 1 ∷ free_txn_entry ∷ []; next_handle = 2 }

put_succeeds : (txn_put vault summing second first).0 ≡ ok
unfolding recover choose consider found_state parse_commit parse_commit_file check_commit
    commit_matches auth_buffer tag_equal tag_difference commit_generation ref_of validate_ref
    is_deleted is_record_ref validate_record validate_file record_file_ok record_matches
    validate_tags auth_record absorb state_of invalid_record get_uint16_be get_uint32_be
    layout_valid fids_valid txn_put txn_put_at next_state txn_finish prepare write_commit
    write_record write_sealed clear_slot sync synced replace_file put_new remove_file remove_found
    record_tag tag_or_empty new_ref record_header put_uint16_be put_uint32_be commit_header
put_succeeds = refl

opens_first : txn_open summing vault small_table first ≡ (done 1, opened_table first_state)
unfolding txn_open txn_open_state txn_store_entry txn_stored txn_occupy txn_allocate_token
    txn_allocate_from txn_find_handle txn_find_in
opens_first = rw (vault_valid, recovers_first) refl

pub first-IsOwn : IsOwn vault summing first_state
first-IsOwn = inr refl

txn_put_atomic_example :
    (((txn_put vault summing second first).0 ≢ ok)
      × (recover vault summing (txn_put vault summing second first).1 ≡ done first_state))
    ⊎ ((recover vault summing (txn_put vault summing second first).1
          ≡ done (put_state first_state 2))
        × HasRecord vault 1 second (txn_put vault summing second first).1)
txn_put_atomic_example =
    txn_put_atomic memory-IsDisk vault summing summing-IsMac vault-IsLayout second first first_state
      vault_valid recovers_first first-IsOwn (omega arith) (omega arith)

txn_delete_atomic_example :
    (((txn_delete vault summing first).0 ≢ ok)
      × (recover vault summing (txn_delete vault summing first).1 ≡ done first_state))
    ⊎ (recover vault summing (txn_delete vault summing first).1 ≡ done (delete_state first_state))
txn_delete_atomic_example =
    txn_delete_atomic memory-IsDisk vault summing summing-IsMac vault-IsLayout first first_state
      vault_valid recovers_first first-IsOwn refl (omega arith)

txn_put-stale_example :
    txn_read_at summing 1 0 3 (opened_table first_state) (txn_put vault summing second first).1
    ≡ failed stale_handle
txn_put-stale_example =
    txn_put-stale summing memory-IsDisk vault summing-IsMac vault-IsLayout second first first_state
      small_table (opened_table first_state) 1 0 3 vault_valid recovers_first first-IsOwn
      (omega arith) (omega arith) put_succeeds opens_first

abbrev after : Contents
after = (txn_put vault summing second first).1

recovers_second : recover vault summing after ≡ done (put_state first_state 2)
recovers_second = elim txn_put_atomic_example [
  | inl old ↦ absurd (old.0 put_succeeds)
  | inr new ↦ new.0
]

opens_second :
    txn_open summing vault small_table after ≡ (done 1, opened_table (put_state first_state 2))
unfolding txn_open txn_open_state txn_store_entry txn_stored txn_occupy txn_allocate_token
    txn_allocate_from txn_find_handle txn_find_in
opens_second = rw (vault_valid, recovers_second) refl

txn_put-read_example :
    txn_read_at summing 1 1 1 (opened_table (put_state first_state 2)) after ≡ done (5 ∷ [])
txn_put-read_example =
    txn_put-read summing memory-IsDisk vault summing-IsMac vault-IsLayout second first first_state
      small_table (opened_table (put_state first_state 2)) 1 1 1 vault_valid recovers_first
      first-IsOwn (omega arith) (omega arith) put_succeeds opens_second (omega arith)

-- A power loss after the record file of slot 1 was half written.
abbrev torn : Contents
torn = set_at 0x1002 (some (1 ∷ 2 ∷ [])) first

torn_commit : NoData (at_slot 1 vault.commit_fid) torn
torn_commit file e = absurd (ground arith)

recover-SameSlot_example : recover vault summing torn ≡ done first_state
recover-SameSlot_example =
    recover-SameSlot vault summing first torn first_state first-IsOwn recovers_first
      (same_contents 0x1003 first torn refl, same_contents 0x1001 first torn refl) torn_commit

choose-newer_example :
    (choose (done first_state) (done (put_state first_state 2)) ≡ done (put_state first_state 2))
    × (choose (done (put_state first_state 2)) (done first_state) ≡ done (put_state first_state 2))
choose-newer_example = choose-newer first_state (put_state first_state 2) (omega arith)

abbrev left_tag : List ℕ
left_tag = 1 ∷ 2 ∷ []

abbrev right_tag : List ℕ
right_tag = 1 ∷ 3 ∷ []

tag_equal_iff_example : (tag_equal left_tag right_tag ≡ true) ↔ (left_tag ≡ right_tag)
tag_equal_iff_example = tag_equal_iff left_tag right_tag refl

txn_allocate_token-some_example :
    (p : ℕ × ℕ) × (txn_allocate_token (opened_table first_state) ≡ some p)
    × (p.0 ≢ 0)
    × (is_found (txn_find_handle p.0 (opened_table first_state)) ≡ false)
txn_allocate_token-some_example =
    txn_allocate_token-some (opened_table first_state) (omega arith) (omega arith)

after-Represents : Represents vault summing (cell 2 (some second)) after
after-Represents = record {
  current = put_state first_state 2;
  recovered = recovers_second;
  own = inr refl;
  same_generation = refl;
  shows = (
    refl,
    refl,
    elim txn_put_atomic_example [ inl old ↦ absurd (old.0 put_succeeds) | inr new ↦ new.1 ],
  );
}

abbrev large : List ℕ
large = replicate 60 1

-- The second put has no place.
abbrev four_ops : List Op
four_ops = put (1 ∷ []) ∷ put large ∷ delete ∷ put (6 ∷ 6 ∷ 6 ∷ []) ∷ []

apply_ops-Run_example :
    (c : Cell) × Run (cell 2 (some second)) four_ops (apply_ops vault summing four_ops after).0 c
    × Represents vault summing c (apply_ops vault summing four_ops after).1
apply_ops-Run_example =
    apply_ops-Run vault summing memory-IsDisk summing-IsMac vault-IsLayout vault_valid four_ops
      (cell 2 (some second)) after after-Represents (omega arith)
      (omega arith, (omega arith, (omega arith, tt)))

abbrev pub AnyRoom : ℕ → Contents → Type 0
AnyRoom n s = Unit {0}

-- Files of at most 100 bytes always have room.
pub memory-IsRoomy : IsRoomy 100 AnyRoom
memory-IsRoomy = record {
  deletes = λ n fid file s plain e fits. (refl, tt);
  creates = λ n fid s plain e fits. (fid, refl, tt);
  puts = λ n fid file b s plain e empty small fits.
      (let room : leb (length b) 100 ≡ true = ground (arith, small) in rw room (refl, tt));
  syncs = λ n ms s fits. (refl, tt);
  room = λ n size s small fits. refl;
}

abbrev blank : Contents
blank fid = none

no_commit : (fid : ℕ) → IsSpoiled fid blank
no_commit fid file e = absurd (ground arith)

txn_put_first_example :
    (((txn_put vault summing second blank).0 ≢ ok)
      × (recover vault summing (txn_put vault summing second blank).1 ≡ failed file_not_found)
      × Blank memory-IsDisk vault summing summing-IsMac vault-IsLayout vault_valid
          (txn_put vault summing second blank).1)
    ⊎ ((recover vault summing (txn_put vault summing second blank).1 ≡ done (first_put 2))
        × HasRecord vault 0 second (txn_put vault summing second blank).1)
txn_put_first_example =
    txn_put_first memory-IsDisk vault summing summing-IsMac vault-IsLayout vault_valid blank
      (no_commit 0x1003, no_commit 0x1004) second (omega arith)
