-- ===== src/Txn/Handles.antt =====
-- FidoAuth/pico-keys-sdk/src/fs/object_store_txn.c: the table of handles, with opening, reading and
-- closing. The authenticator's callbacks are there, and the pointers for results are not null.
use key_wallet.Base.{
  ℕ, zero, suc, ◌+◌, ◌-◌, ◌%◌, ◌^◌, Bool, true, false, not, ◌&&◌, ◌||◌, List, [], ◌∷◌, Option, none,
  some, ltb, ◌==◌, if◌then◌else◌, length,
}
use key_wallet.Bytes.{Status, ok, file_not_found, null_param, stale_handle, no_memory, wrong_length}
use key_wallet.Objects.Storage.{Files, Outcome, failed, done, ◌>>=◌}
use key_wallet.Txn.{Layout, at_slot, TxnState, Authenticator, record_header_size, layout_valid}
use key_wallet.Txn.Recover.{invalid_record, recover}

-- `file_object_txn_handle_entry_t`; the token 0 is that of a free entry.
pub record TxnEntry : Type 0 where
  pub layout : Layout
  pub state : TxnState
  pub token : ℕ

-- `file_object_txn_handles` and `file_object_txn_next_handle`
pub record TxnHandles : Type 0 where
  pub entries : List TxnEntry
  pub next_handle : ℕ

abbrev pub free_txn_entry : TxnEntry
free_txn_entry = record {
  layout = record {
    namespace_id = 0;
    object_type = 0;
    object_id = 0;
    record_fid = (0, 0);
    commit_fid = (0, 0);
  };
  state = record {
    generation = 0;
    record_id = 0;
    payload_size = 0;
    commit_slot = 0;
    record_slot = 0;
    deleted = false;
  };
  token = 0;
}

unfoldable pub txn_find_in : ℕ → List TxnEntry → Option TxnEntry
txn_find_in handle [] = none
txn_find_in handle (e ∷ es) = if e.token == handle then some e else txn_find_in handle es

unfoldable pub txn_find_handle : ℕ → TxnHandles → Option TxnEntry
txn_find_handle handle h = if handle == 0 then none else txn_find_in handle h.entries

abbrev pub is_found : Option TxnEntry → Bool
is_found none = false
is_found (some e) = true

-- The loop of `file_object_txn_allocate_token`, on fuel: the token and the next one to try.
unfoldable pub txn_allocate_from : ℕ → ℕ → TxnHandles → Option (ℕ × ℕ)
txn_allocate_from zero next h = none
txn_allocate_from (suc fuel) next h =
    let following = (next + 1) % 2 ^ 32 in
    let rest = txn_allocate_from fuel following h in
    if not (next == 0) && not (is_found (txn_find_handle next h))
    then some (next, following)
    else rest

unfoldable pub txn_allocate_token : TxnHandles → Option (ℕ × ℕ)
txn_allocate_token h = txn_allocate_from (length h.entries + 2) h.next_handle h

abbrev pub keep_entry : TxnEntry → Option (List TxnEntry) → Option (List TxnEntry)
keep_entry e none = none
keep_entry e (some rest) = some (e ∷ rest)

-- The first free entry takes the new one; `none` if there is no free one.
unfoldable pub txn_occupy : TxnEntry → List TxnEntry → Option (List TxnEntry)
txn_occupy new [] = none
txn_occupy new (e ∷ es) = if e.token == 0 then some (new ∷ es) else keep_entry e (txn_occupy new es)

abbrev pub txn_entry : Layout → TxnState → ℕ → TxnEntry
txn_entry layout st t = record { layout = layout; state = st; token = t }

unfoldable pub txn_stored : ℕ × ℕ → Option (List TxnEntry) → TxnHandles → Outcome ℕ × TxnHandles
txn_stored (t, following) none h = (failed no_memory, h)
txn_stored (t, following) (some es) h = (done t, record { entries = es; next_handle = following })

-- The token is drawn only for a free entry: without one the table stays as it is.
unfoldable pub txn_store_entry :
    Layout → TxnState → Option (ℕ × ℕ) → TxnHandles → Outcome ℕ × TxnHandles
txn_store_entry layout st none h = (failed no_memory, h)
txn_store_entry layout st (some t) h =
    txn_stored t (txn_occupy (txn_entry layout st t.0) h.entries) h

unfoldable pub txn_open_state : Layout → TxnHandles → Outcome TxnState → Outcome ℕ × TxnHandles
txn_open_state layout h (failed e) = (failed e, h)
txn_open_state layout h (done st) =
    if st.deleted
    then (failed file_not_found, h)
    else txn_store_entry layout st (txn_allocate_token h) h

unfoldable pub txn_release : ℕ → List TxnEntry → List TxnEntry
txn_release handle [] = []
txn_release handle (e ∷ es) =
    if e.token == handle then free_txn_entry ∷ es else e ∷ txn_release handle es

unfoldable pub txn_close : ℕ → TxnHandles → Status × TxnHandles
txn_close handle h =
    if is_found (txn_find_handle handle h)
    then (ok, record h { entries = txn_release handle h.entries })
    else (stale_handle, h)

unfoldable pub same_state : TxnState → TxnState → Bool
same_state recovered opened =
    not recovered.deleted
    && (recovered.generation == opened.generation)
    && (recovered.record_id == opened.record_id)
    && (recovered.record_slot == opened.record_slot)
    && (recovered.payload_size == opened.payload_size)

-- The end of `file_object_txn_resolve`, on what was recovered.
unfoldable pub txn_resolved : TxnEntry → Outcome TxnState → Outcome TxnState
txn_resolved e (failed r) = if invalid_record r then failed stale_handle else failed r
txn_resolved e (done recovered) =
    if same_state recovered e.state then done recovered else failed stale_handle

module _ ⦃files : Files⦄ (auth : Authenticator) where
  open files use {Store, File, search, read_at}

  unfoldable pub txn_open : Layout → TxnHandles → Store → Outcome ℕ × TxnHandles
  txn_open layout h s =
      if not (layout_valid layout)
      then (failed null_param, h)
      else txn_open_state layout h (recover layout auth s)

  unfoldable pub txn_resolve_entry : TxnEntry → Store → Outcome TxnState
  txn_resolve_entry e s = txn_resolved e (recover e.layout auth s)

  unfoldable pub txn_resolve : Option TxnEntry → Store → Outcome (TxnEntry × TxnState)
  txn_resolve none s = failed stale_handle
  txn_resolve (some e) s = do st ← txn_resolve_entry e s; done (e, st)

  -- Size and generation.
  unfoldable pub txn_get_info : ℕ → TxnHandles → Store → Outcome (ℕ × ℕ)
  txn_get_info handle h s = do
    p ← txn_resolve (txn_find_handle handle h) s
    done (p.1.payload_size, p.1.generation)

  unfoldable pub read_file : Option File → ℕ → ℕ → Store → Outcome (List ℕ)
  read_file none offset len s = failed null_param
  read_file (some file) offset len s = read_at file (record_header_size + offset) len s

  unfoldable pub txn_read_state : Layout → ℕ → ℕ → Store → TxnState → Outcome (List ℕ)
  txn_read_state layout offset len s st =
      if ltb st.payload_size offset || ltb (st.payload_size - offset) len
      then failed wrong_length
      else read_file (search (at_slot st.record_slot layout.record_fid) s) offset len s

  unfoldable pub txn_read_at : ℕ → ℕ → ℕ → TxnHandles → Store → Outcome (List ℕ)
  txn_read_at handle offset len h s = do
    p ← txn_resolve (txn_find_handle handle h) s
    txn_read_state p.0.layout offset len s p.1
