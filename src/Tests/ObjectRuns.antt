-- ===== src/Tests/ObjectRuns.antt =====
-- Objects in a file table where every identifier has a file.
use key_wallet.Base.{
  ℕ, ◌+◌, ◌≤◌, ◌≡◌, refl, ap, Bool, true, false, List, [], ◌∷◌, Option, none, some, leb, ◌==◌,
  if◌then◌else◌, length, take, drop, arith,
}
use key_wallet.Bytes.{ok, wrong_length, stale_handle, get_uint16_be, get_uint32_be}
use key_wallet.Objects.{
  ObjectId, ObjectRecord, id_valid, header_matches, record_of, parse_header, parse_file,
  object_parse, write_object, replace_object, put_found, object_put,
}
use key_wallet.Objects.Storage.{Files, Outcome, failed, done}
use key_wallet.Objects.Record.{IsId}
use key_wallet.Objects.Put.{IsFileTable, Stored, next_generation, object_put-Stored}
use key_wallet.Objects.Handles.{Handles, free_entry, Entry, resolved, resolve_entry}
use key_wallet.Objects.Stale.{object_put-object_parse, object_put-stale}

abbrev Contents : Type 0
Contents = ℕ → Option (List ℕ)

abbrev bytes_of : Option (List ℕ) → List ℕ
bytes_of none = []
bytes_of (some b) = b

abbrev is_written : Option (List ℕ) → Bool
is_written none = false
is_written (some b) = true

abbrev read_part : List ℕ → ℕ → ℕ → Outcome (List ℕ)
read_part b offset len =
    if leb (offset + len) (length b) then done (take len (drop offset b)) else failed wrong_length

abbrev put_at : ℕ → List ℕ → Contents → Contents
put_at file b s fid = if fid == file then some b else s fid

instance abbrev table : Files
table = record {
  Store = Contents;
  File = ℕ;
  search = λ fid s. some fid;
  has_data = λ file s. is_written (s file);
  get_size = λ file s. length (bytes_of (s file));
  fid_of = λ file s. file;
  read_at = λ file offset len s. read_part (bytes_of (s file)) offset len;
  create = λ fid s. (some fid, s);
  put_data = λ file b s. (ok, put_at file b s);
  delete = λ file s. (ok, λ fid. if fid == file then none else s fid);
  delete_no_commit = λ file s. (ok, λ fid. if fid == file then none else s fid);
  is_static = λ fid. false;
  commit_sync = λ ms s. (true, s);
  allocates = λ n s. true;
}

put_at_same : (file : ℕ) (b : List ℕ) (s : Contents) → put_at file b s file ≡ some b
put_at_same file b s = ground arith

read_part_within :
    (b : List ℕ) (offset len : ℕ)
    → offset + len ≤ length b
    → read_part b offset len ≡ done (take len (drop offset b))
read_part_within b offset len h = ground arith

table-IsFileTable : IsFileTable
table-IsFileTable = record {
  put_holds = λ file b s full good. record {
    written = rw (put_at_same file b s) refl;
    size = rw (put_at_same file b s) refl;
    named = refl;
    reads = λ offset len h. rw (put_at_same file b s) (read_part_within b offset len h);
  };
  put_keeps = λ file b s fid. refl;
  found_fid = λ fid file s e. cc;
  create_found = λ fid file s s1 e. ap (λ r. r.0) e;
}

abbrev note : ObjectId
note = record { namespace_id = 1; object_type = 2; fid = 0x1005 }

note-IsId : IsId note
unfolding id_valid
note-IsId = record {
  namespace_small = omega arith;
  type_small = omega arith;
  fid_small = omega arith;
  valid = refl;
}

-- The object in its seventh generation.
abbrev seventh : Contents
seventh fid =
    if fid == 0x1005
    then some (
        0x50 ∷ 0x4b ∷ 0x4f ∷ 0x31 ∷ 1 ∷ 20 ∷ 0 ∷ 1 ∷ 0 ∷ 2 ∷ 0x10 ∷ 5 ∷ 0 ∷ 0 ∷ 0 ∷ 7 ∷ 0 ∷ 0 ∷ 0
        ∷ 1 ∷ 99 ∷ [])
    else none

seventh_parsed :
    object_parse note (some 0x1005) seventh
    ≡ done (record { payload_offset = 20; payload_size = 1; generation = 7 })
unfolding object_parse parse_file parse_header header_matches record_of id_valid get_uint16_be
    get_uint32_be
seventh_parsed = refl

put_succeeds : (object_put note (8 ∷ 9 ∷ []) seventh).0 ≡ ok
unfolding object_put put_found replace_object write_object object_parse parse_file parse_header
    header_matches record_of id_valid get_uint16_be get_uint32_be
put_succeeds = refl

abbrev old_entry : Entry
old_entry = record { object_id = note; entry_generation = 7; entry_size = 1; token = 1 }

abbrev seventh_record : ObjectRecord
seventh_record = record { payload_offset = 20; payload_size = 1; generation = 7 }

old_entry_good : resolve_entry (some old_entry) seventh ≡ done seventh_record
unfolding resolve_entry resolved
old_entry_good = rw seventh_parsed refl

next_of_seventh : next_generation note seventh ≡ 8
next_of_seventh = rw seventh_parsed refl

object_put-object_parse_example :
    object_parse note (some 0x1005) (object_put note (8 ∷ 9 ∷ []) seventh).1
    ≡ done (record {
      payload_offset = 20;
      payload_size = 2;
      generation = next_generation note seventh;
    })
object_put-object_parse_example =
    object_put-object_parse table-IsFileTable note (8 ∷ 9 ∷ []) seventh note-IsId (omega arith)
      (omega (arith, next_of_seventh)) put_succeeds

object_put-stale_example :
    resolve_entry (some old_entry) (object_put note (8 ∷ 9 ∷ []) seventh).1 ≡ failed stale_handle
object_put-stale_example =
    object_put-stale table-IsFileTable old_entry seventh_record (8 ∷ 9 ∷ []) seventh note-IsId
      (omega arith) (omega arith) old_entry_good put_succeeds

object_put-Stored_example :
    Stored note (next_generation note seventh) (8 ∷ 9 ∷ []) (object_put note (8 ∷ 9 ∷ []) seventh).1
object_put-Stored_example =
    object_put-Stored table-IsFileTable note (8 ∷ 9 ∷ []) seventh put_succeeds

abbrev wrapping : Handles
wrapping = record { entries = old_entry ∷ free_entry ∷ []; next_handle = 0xffffffff }
