-- ===== src/Objects/Handles.antt =====
-- FidoAuth/pico-keys-sdk/src/fs/object_store.c: the table of handles.
use key_wallet.Base.{
  ℕ, zero, suc, ◌+◌, ◌-◌, ◌%◌, ◌^◌, Bool, true, false, not, ◌&&◌, ◌||◌, List, [], ◌∷◌, Option, none,
  some, ltb, ◌==◌, if◌then◌else◌, length,
}
use key_wallet.Bytes.{
  Status, ok, file_not_found, wrong_data, null_param, stale_handle, no_memory, wrong_length,
}
use key_wallet.Objects.{ObjectId, ObjectRecord, id_valid, object_parse}
use key_wallet.Objects.Storage.{Files, Outcome, failed, done}

-- `file_object_handle_entry_t`; the token 0 is that of a free entry.
pub record Entry : Type 0 where
  pub object_id : ObjectId
  pub entry_generation : ℕ
  pub entry_size : ℕ
  pub token : ℕ

-- `file_object_handles`, of FILE_OBJECT_MAX_HANDLES entries, and `file_object_next_handle`
pub record Handles : Type 0 where
  pub entries : List Entry
  pub next_handle : ℕ

abbrev pub invalid_handle : ℕ
invalid_handle = 0

abbrev pub free_entry : Entry
free_entry = record {
  object_id = record { namespace_id = 0; object_type = 0; fid = 0 };
  entry_generation = 0;
  entry_size = 0;
  token = invalid_handle;
}

unfoldable pub find_in : ℕ → List Entry → Option Entry
find_in handle [] = none
find_in handle (e ∷ es) = if e.token == handle then some e else find_in handle es

unfoldable pub find_handle : ℕ → Handles → Option Entry
find_handle handle h = if handle == invalid_handle then none else find_in handle h.entries

unfoldable pub is_some : Option Entry → Bool
is_some none = false
is_some (some e) = true

unfoldable pub handle_in_use : ℕ → Handles → Bool
handle_in_use handle h = is_some (find_handle handle h)

-- The loop of `file_object_allocate_token`, on fuel: the token and the next one to try.
unfoldable pub allocate_from : ℕ → ℕ → Handles → Option (ℕ × ℕ)
allocate_from zero next h = none
allocate_from (suc fuel) next h =
    let following = (next + 1) % 2 ^ 32 in
    if not (next == invalid_handle) && not (handle_in_use next h)
    then some (next, following)
    else allocate_from fuel following h

-- The tokens in use and 0 are skipped, each once.
unfoldable pub allocate_token : Handles → Option (ℕ × ℕ)
allocate_token h = allocate_from (length h.entries + 2) h.next_handle h

-- The first free entry takes the new one; `none` if there is no free one.
unfoldable pub occupy : Entry → List Entry → Option (List Entry)
occupy new [] = none
occupy new (e ∷ es) =
    if e.token == invalid_handle
    then some (new ∷ es)
    else elim (occupy new es) [ none ↦ none | some rest ↦ some (e ∷ rest) ]

unfoldable pub entry_of : ObjectId → ObjectRecord → ℕ → Entry
entry_of id r t = record {
  object_id = id;
  entry_generation = r.generation;
  entry_size = r.payload_size;
  token = t;
}

unfoldable pub store_entry : ObjectId → ObjectRecord → ℕ × ℕ → Handles → Outcome ℕ × Handles
store_entry id r (t, following) h = elim (occupy (entry_of id r t) h.entries) [
  | none ↦ (failed no_memory, h)
  | some es ↦ (done t, record { entries = es; next_handle = following })
]

unfoldable pub open_parsed : ObjectId → Handles → Outcome ObjectRecord → Outcome ℕ × Handles
open_parsed id h (failed e) = (failed e, h)
open_parsed id h (done r) = elim (allocate_token h) [
  | none ↦ (failed no_memory, h)
  | some t ↦ store_entry id r t h
]

unfoldable pub release : ℕ → List Entry → List Entry
release handle [] = []
release handle (e ∷ es) = if e.token == handle then free_entry ∷ es else e ∷ release handle es

unfoldable pub object_close : ℕ → Handles → Status × Handles
object_close handle h =
    if handle_in_use handle h
    then (ok, record h { entries = release handle h.entries })
    else (stale_handle, h)

-- A file that is gone or holds something else makes the handle stale.
unfoldable pub resolved : Entry → Outcome ObjectRecord → Outcome ObjectRecord
resolved e (failed file_not_found) = failed stale_handle
resolved e (failed wrong_data) = failed stale_handle
resolved e (failed r) = failed r
resolved e (done r) =
    if not (r.generation == e.entry_generation) || not (r.payload_size == e.entry_size)
    then failed stale_handle
    else done r

module _ ⦃files : Files⦄ where
  open files use {Store, File, search, read_at}

  unfoldable pub object_open : ObjectId → Handles → Store → Outcome ℕ × Handles
  object_open id h s =
      if not (id_valid id)
      then (failed null_param, h)
      else open_parsed id h (object_parse id (search id.fid s) s)

  unfoldable pub resolve_entry : Option Entry → Store → Outcome ObjectRecord
  resolve_entry none s = failed stale_handle
  resolve_entry (some e) s = resolved e (object_parse e.object_id (search e.object_id.fid s) s)

  unfoldable pub object_resolve : ℕ → Handles → Store → Outcome ObjectRecord
  object_resolve handle h s = resolve_entry (find_handle handle h) s

  -- Size and generation.
  unfoldable pub object_get_info : ℕ → Handles → Store → Outcome ObjectRecord
  object_get_info handle h s = object_resolve handle h s

  unfoldable pub read_resolved :
      ℕ → ℕ → Option File → Store → Outcome ObjectRecord → Outcome (List ℕ)
  read_resolved offset len file s (failed e) = failed e
  read_resolved offset len none s (done r) = failed file_not_found
  read_resolved offset len (some file) s (done r) =
      if ltb r.payload_size offset || ltb (r.payload_size - offset) len
      then failed wrong_length
      else read_at file (r.payload_offset + offset) len s

  unfoldable pub entry_file : Option Entry → Store → Option File
  entry_file none s = none
  entry_file (some e) s = search e.object_id.fid s

  unfoldable pub object_read_at : ℕ → ℕ → ℕ → Handles → Store → Outcome (List ℕ)
  object_read_at handle offset len h s =
      read_resolved offset len (entry_file (find_handle handle h) s) s (object_resolve handle h s)
