-- ===== src/Dynamic.antt =====
-- FidoAuth/pico-keys-sdk/src/fs/file.c: the table of dynamic files, was_there by double hashing. A pointer
-- into the table is its index; the slots are a function of the index.
pub mod Path
pub mod Probes
pub mod Count
pub mod Files
pub mod Table
pub mod View
pub mod Requests
pub mod Catalog
pub mod Runs
use key_wallet.Base.{
  ℕ, zero, suc, ◌+◌, ◌-◌, ◌*◌, ◌%◌, ◌^◌, Bool, true, false, not, ◌&&◌, ◌||◌, Option, none, some,
  ltb, leb, ◌==◌, if◌then◌else◌,
}
use key_wallet.Bytes.{Status, ok, file_not_found}

-- `file_t`: the identifier, and the address of the data if there is some.
pub record Slot : Type 0 where
  pub fid : ℕ
  pub data_at : Option ℕ

-- `dynamic_file` and `dynamic_files`
pub record DynamicFiles : Type 0 where
  pub slots : ℕ → Slot
  pub count : ℕ

abbrev pub dynamic_file_slots : ℕ
dynamic_file_slots = 2309

abbrev pub max_dynamic_files : ℕ
max_dynamic_files = 2048

abbrev pub fid_empty : ℕ
fid_empty = 0

abbrev pub fid_deleted : ℕ
fid_deleted = 0xffff

abbrev pub empty_slot : Slot
empty_slot = record { fid = fid_empty; data_at = none }

-- The part of `file_initialize_flash` on the table.
unfoldable pub cleared_files : DynamicFiles
cleared_files = record { slots = λ i. empty_slot; count = 0 }

abbrev pub set_slot : ℕ → Slot → (ℕ → Slot) → ℕ → Slot
set_slot i new slots j = if j == i then new else slots j

unfoldable pub dynamic_hash : ℕ → ℕ
dynamic_hash fid = fid * 40503 % 2 ^ 32 % dynamic_file_slots

unfoldable pub dynamic_hash_step : ℕ → ℕ
dynamic_hash_step fid = 1 + fid * 97 % 2 ^ 32 % (dynamic_file_slots - 1)

abbrev pub next_slot : ℕ → ℕ → ℕ
next_slot slot step = (slot + step) % dynamic_file_slots

-- The loop of `search_dynamic_file`, on the probes that are left.
unfoldable pub search_from : ℕ → ℕ → ℕ → ℕ → (ℕ → Slot) → Option ℕ
search_from zero slot step fid slots = none
search_from (suc probes) slot step fid slots =
    let rest = search_from probes (next_slot slot step) step fid slots in
    if (slots slot).fid == fid_empty
    then none
    else if (slots slot).fid == fid
    then some slot
    else rest

unfoldable pub search_dynamic_file : ℕ → DynamicFiles → Option ℕ
search_dynamic_file fid d =
    search_from dynamic_file_slots (dynamic_hash fid) (dynamic_hash_step fid) fid d.slots

-- `deleted ? deleted : file`
abbrev pub deleted_or : Option ℕ → ℕ → ℕ
deleted_or none slot = slot
deleted_or (some deleted) slot = deleted

-- The first deleted slot that was seen.
unfoldable pub note_deleted : Option ℕ → ℕ → (ℕ → Slot) → Option ℕ
note_deleted (some deleted) slot slots = some deleted
note_deleted none slot slots = if (slots slot).fid == fid_deleted then some slot else none

-- The loop of `find_dynamic_slot`, with the deleted slot that was seen.
unfoldable pub find_slot_from : ℕ → Option ℕ → ℕ → ℕ → (ℕ → Slot) → Option ℕ
find_slot_from zero deleted slot step slots = deleted
find_slot_from (suc probes) deleted slot step slots =
    let rest =
      find_slot_from probes (note_deleted deleted slot slots) (next_slot slot step) step slots in
    if (slots slot).fid == fid_empty then some (deleted_or deleted slot) else rest

unfoldable pub find_dynamic_slot : ℕ → DynamicFiles → Option ℕ
find_dynamic_slot fid d =
    find_slot_from dynamic_file_slots none (dynamic_hash fid) (dynamic_hash_step fid) d.slots

unfoldable pub occupy_slot : ℕ → Option ℕ → DynamicFiles → Option ℕ × DynamicFiles
occupy_slot fid none d = (none, d)
occupy_slot fid (some i) d = (
  some i,
  record {
    slots = set_slot i (record { fid = fid; data_at = none }) d.slots;
    count = (d.count + 1) % 2 ^ 16;
  },
)

unfoldable pub new_dynamic : ℕ → Option ℕ → DynamicFiles → Option ℕ × DynamicFiles
new_dynamic fid (some i) d = (some i, d)
new_dynamic fid none d =
    if (fid == fid_empty) || (fid == fid_deleted) || leb max_dynamic_files d.count
    then (none, d)
    else occupy_slot fid (find_dynamic_slot fid d) d

-- `file_new`, where no static file has the identifier.
unfoldable pub file_new : ℕ → DynamicFiles → Option ℕ × DynamicFiles
file_new fid d = new_dynamic fid (search_dynamic_file fid d) d

unfoldable pub link_data : Option ℕ → ℕ → DynamicFiles → DynamicFiles
link_data none address d = d
link_data (some i) address d = record {
  slots = set_slot i (record { fid = (d.slots i).fid; data_at = some address }) d.slots;
  count = d.count;
}

-- One record of `scan_region`, where no static file has the identifier.
unfoldable pub scan_file : ℕ → ℕ → DynamicFiles → DynamicFiles
scan_file fid address d = let (file, e) = file_new fid d in link_data file address e

-- `delete_dynamic_file` on an index; NULL and the pointers below the table are `none`.
unfoldable pub delete_dynamic_file : Option ℕ → DynamicFiles → Status × DynamicFiles
delete_dynamic_file none d = (file_not_found, d)
delete_dynamic_file (some i) d =
    if leb dynamic_file_slots i
      || ((d.slots i).fid == fid_empty)
      || ((d.slots i).fid == fid_deleted)
    then (file_not_found, d)
    else (
      ok,
      record {
        slots = set_slot i (record { fid = fid_deleted; data_at = none }) d.slots;
        count = (d.count + 0xffff) % 2 ^ 16;
      },
    )
