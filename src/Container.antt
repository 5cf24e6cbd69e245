-- ===== src/Container.antt =====
-- FidoAuth/pico-keys-sdk/src/fs/object_container.c: the identifiers of records. The pointers of
-- callers are not null.
pub mod Fresh
pub mod Records
pub mod Headers
pub mod Sealed
pub mod Extensions
use key_wallet.Base.{
  ℕ, ◌+◌, Bool, true, false, not, ◌&&◌, List, [], ◌∷◌, ◌++◌, take, drop, get_or, list_eq, ◌==◌,
  if◌then◌else◌,
}
use key_wallet.Bytes.{Status, ok, file_not_found, wrong_data}
use key_wallet.Bytes.Wide.{get_uint64_be, put_uint64_be}
use key_wallet.Policy.{is_ok}
use key_wallet.Objects.Storage.{Files, Outcome, failed, done, ◌>>=◌, ◌>>◌, check}
use key_wallet.Txn.{Layout, Authenticator}
use key_wallet.Txn.Write.{then_do, txn_put}
use key_wallet.Txn.Handles.{TxnHandles, txn_open, txn_get_info, txn_read_at, txn_close}

abbrev pub record_id_state_size : ℕ
record_id_state_size = 16

abbrev pub record_id_format_version : ℕ
record_id_format_version = 1

abbrev pub record_id_magic : List ℕ
record_id_magic = 0x50 ∷ 0x4b ∷ 0x52 ∷ 0x49 ∷ []

-- The state that is stored: the last identifier that was handed out.
unfoldable pub id_state : ℕ → List ℕ
id_state id = record_id_magic ++ (record_id_format_version ∷ 0 ∷ 0 ∷ 0 ∷ put_uint64_be id)

unfoldable pub id_state_ok : List ℕ → Bool
id_state_ok b =
    list_eq (take 4 b) record_id_magic
    && (get_or b 4 0 == record_id_format_version)
    && (get_or b 5 0 == 0)
    && (get_or b 6 0 == 0)
    && (get_or b 7 0 == 0)

unfoldable pub next_of : List ℕ → Outcome ℕ
next_of b = do
  check (id_state_ok b) wrong_data
  let previous_id = get_uint64_be (drop 8 b)
  check (not (previous_id == 0) && not (previous_id == 0xffffffffffffffff)) wrong_data
  done (previous_id + 1)

-- `if (r == PICOKEYS_OK) r = close_result`
unfoldable pub closed : Outcome ℕ → Status → Outcome ℕ
closed (failed e) close_result = failed e
closed (done id) close_result = if is_ok close_result then done id else failed close_result

module _ ⦃files : Files⦄ (layout : Layout) (auth : Authenticator) where
  open files use {Store}

  unfoldable pub stored_next : ℕ → TxnHandles → Store → Outcome ℕ
  stored_next handle h s = do
    info ← txn_get_info auth handle h s
    check (info.0 == record_id_state_size) wrong_data
    b ← txn_read_at auth handle 0 record_id_state_size h s
    next_of b

  -- The next identifier: after the stored one, or 1 where none is stored.
  unfoldable pub next_id : Outcome ℕ × TxnHandles → Store → Outcome ℕ × TxnHandles
  next_id (failed file_not_found, h) s = (done 1, h)
  next_id (failed e, h) s = (failed e, h)
  next_id (done handle, h) s =
      (closed (stored_next handle h s) (txn_close handle h).0, (txn_close handle h).1)

  -- The new state is put twice, so that both slots have it.
  unfoldable pub store_id : ℕ → Store → Status × Store
  store_id id s = then_do (txn_put layout auth (id_state id) s) (txn_put layout auth (id_state id))

  unfoldable pub granted : ℕ → Status × Store → Outcome ℕ × Store
  granted id (e, s) = if is_ok e then (done id, s) else (failed e, s)

  unfoldable pub allocate_stored : Outcome ℕ → Store → Outcome ℕ × Store
  allocate_stored (failed e) s = (failed e, s)
  allocate_stored (done id) s = granted id (store_id id s)

  unfoldable pub record_id_allocate : TxnHandles → Store → Outcome ℕ × TxnHandles × Store
  record_id_allocate h s =
      let next = next_id (txn_open auth layout h s) s in
      let result = allocate_stored next.0 s in (result.0, next.1, result.1)
