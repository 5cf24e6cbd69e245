-- ===== src/Objects.antt =====
-- FidoAuth/pico-keys-sdk/src/fs/object_store.c: objects in files, each with a header that names the
-- object and its generation, and handles that go stale when the object changes. Null pointers of the
-- callers are not modelled, those to files are.
pub mod Storage
pub mod Handles
pub mod Record
pub mod Put
pub mod Stale
pub mod Draw
use key_wallet.Base.{
  ℕ, ◌+◌, ◌-◌, ◌%◌, ◌^◌, Bool, true, false, not, ◌&&◌, ◌||◌, List, [], ◌∷◌, ◌++◌, Option, none,
  some, ltb, ◌==◌, if◌then◌else◌, length, take, drop, get_or, list_eq,
}
use key_wallet.Bytes.{
  Status, ok, file_not_found, wrong_data, exec_error, null_param, stale_handle, no_memory,
  memory_fatal, wrong_length, get_uint16_be, get_uint32_be, put_uint16_be, put_uint32_be,
}
use Storage.{Files, Outcome, failed, done}

-- `file_object_id_t`
pub record ObjectId : Type 0 where
  pub namespace_id : ℕ
  pub object_type : ℕ
  pub fid : ℕ

-- `file_object_record_t`; the payload starts behind the header.
pub record ObjectRecord : Type 0 where
  pub payload_offset : ℕ
  pub payload_size : ℕ
  pub generation : ℕ

abbrev pub magic : List ℕ
magic = 0x50 ∷ 0x4b ∷ 0x4f ∷ 0x31 ∷ []

abbrev pub object_format_version : ℕ
object_format_version = 1

abbrev pub object_header_size : ℕ
object_header_size = 20

unfoldable pub id_valid : ObjectId → Bool
id_valid id = not (id.fid == 0) && not (id.fid == 0xffff)

-- The header that `file_object_put` writes.
unfoldable pub header : ObjectId → ℕ → ℕ → List ℕ
header id generation len =
    magic
    ++ (object_format_version
        ∷ object_header_size
        ∷ (put_uint16_be id.namespace_id
            ++ (put_uint16_be id.object_type
                ++ (put_uint16_be id.fid ++ (put_uint32_be generation ++ put_uint32_be len)))))

-- The long test of `file_object_parse`, negated.
unfoldable pub header_matches : ObjectId → ℕ → ℕ → List ℕ → Bool
header_matches id file_fid file_size h =
    list_eq (take 4 h) magic
    && (get_or h 4 0 == object_format_version)
    && (get_or h 5 0 == object_header_size)
    && (get_uint16_be (drop 6 h) == id.namespace_id)
    && (get_uint16_be (drop 8 h) == id.object_type)
    && (get_uint16_be (drop 10 h) == id.fid)
    && (file_fid == id.fid)
    && not (get_uint32_be (drop 12 h) == 0)
    && (get_uint32_be (drop 16 h) == file_size - object_header_size)

unfoldable pub record_of : List ℕ → ObjectRecord
record_of h = record {
  payload_offset = object_header_size;
  payload_size = get_uint32_be (drop 16 h);
  generation = get_uint32_be (drop 12 h);
}

module _ ⦃files : Files⦄ where
  open files use {
    Store, File, search, has_data, get_size, read_at, fid_of, create, put_data, delete,
    delete_no_commit, allocates,
  }

  unfoldable pub parse_header : ObjectId → ℕ → ℕ → Outcome (List ℕ) → Outcome ObjectRecord
  parse_header id file_fid size (failed e) = failed exec_error
  parse_header id file_fid size (done h) =
      if header_matches id file_fid size h then done (record_of h) else failed wrong_data

  unfoldable pub parse_file : ObjectId → File → Store → Outcome ObjectRecord
  parse_file id file s =
      if not (id_valid id) || not (has_data file s)
      then failed file_not_found
      else if ltb (get_size file s) object_header_size
      then failed wrong_data
      else parse_header id (fid_of file s) (get_size file s) (read_at file 0 object_header_size s)

  unfoldable pub object_parse : ObjectId → Option File → Store → Outcome ObjectRecord
  object_parse id none s = failed file_not_found
  object_parse id (some file) s = parse_file id file s

  -- The record in the buffer from `calloc` is written to the file.
  unfoldable pub write_object : ObjectId → ℕ → List ℕ → File → Store → Status × Store
  write_object id generation payload file s =
      let len = length payload in
      if ltb (0xffffffff - object_header_size) len
      then (no_memory, s)
      else if not (allocates (object_header_size + len) s)
      then (memory_fatal, s)
      else put_data file (header id generation len ++ payload) s

  -- An object that is there gets the next generation.
  unfoldable pub replace_object :
      ObjectId → List ℕ → File → Store → Outcome ObjectRecord → Status × Store
  replace_object id payload file s (failed e) = (e, s)
  replace_object id payload file s (done current) =
      if current.generation == 0xffffffff
      then (wrong_data, s)
      else write_object id (current.generation + 1) payload file s

  unfoldable pub put_created : ObjectId → List ℕ → Option File × Store → Status × Store
  put_created id payload (none, s) = (no_memory, s)
  put_created id payload (some file, s) = write_object id 1 payload file s

  unfoldable pub put_found : ObjectId → List ℕ → Option File → Store → Status × Store
  put_found id payload none s = put_created id payload (create id.fid s)
  put_found id payload (some file) s =
      if has_data file s
      then replace_object id payload file s (object_parse id (some file) s)
      else write_object id 1 payload file s

  unfoldable pub object_put : ObjectId → List ℕ → Store → Status × Store
  object_put id payload s =
      if not (id_valid id) || ltb 0xffffffff (length payload)
      then (null_param, s)
      else put_found id payload (search id.fid s) s

  unfoldable pub delete_parsed : Bool → Option File → Store → Outcome ObjectRecord → Status × Store
  delete_parsed commit file s (failed e) = (e, s)
  delete_parsed commit none s (done r) = (file_not_found, s)
  delete_parsed commit (some file) s (done r) =
      if commit then delete file s else delete_no_commit file s

  unfoldable pub delete_internal : ObjectId → Bool → Store → Status × Store
  delete_internal id commit s =
      if not (id_valid id)
      then (null_param, s)
      else let file = search id.fid s in delete_parsed commit file s (object_parse id file s)

  unfoldable pub object_delete : ObjectId → Store → Status × Store
  object_delete id s = delete_internal id true s

  unfoldable pub object_delete_no_commit : ObjectId → Store → Status × Store
  object_delete_no_commit id s = delete_internal id false s
