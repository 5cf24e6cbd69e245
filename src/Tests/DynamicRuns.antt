-- ===== src/Tests/DynamicRuns.antt =====
-- Requests on the dynamic files of FidoAuth/pico-keys-sdk/src/fs/file.c.
use key_wallet.Base.{ℕ, ◌≡◌, ◌<◌, refl, some, List, [], ◌∷◌, arith, All}
use key_wallet.Dynamic.{
  cleared_files, file_new, search_dynamic_file, search_from, find_dynamic_slot, find_slot_from,
  note_deleted, new_dynamic, occupy_slot, link_data, scan_file, delete_dynamic_file, dynamic_hash,
  dynamic_hash_step,
}
use key_wallet.Dynamic.Path.{IsLive}
use key_wallet.Dynamic.Files.{IsSound, cleared_files-IsSound}
use key_wallet.Dynamic.View.{lookup}
use key_wallet.Dynamic.Catalog.{
  Request, create, scan, remove, perform, run_requests, apply_requests, no_files, asked, Shows,
}
use key_wallet.Dynamic.Runs.{run_requests-refines, run_requests-IsSound, file_new-succeeds}

-- Two identifiers with the same hash, 0x0010 and 0x0915, and a third one.
abbrev some_requests : List Request
some_requests = create 16 ∷ scan 2325 4096 ∷ remove 16 ∷ create 0xcf00 ∷ scan 16 8192 ∷ []

abbrev no_requests : List Request
no_requests = create 16 ∷ scan 2325 4096 ∷ remove 16 ∷ []

IsLive-some_requests : All (λ r. IsLive (asked r)) some_requests
IsLive-some_requests = ground arith

same_hash : dynamic_hash 16 ≡ dynamic_hash 2325
unfolding dynamic_hash
same_hash = refl

shown_behind_deleted : lookup 2325 (run_requests no_requests cleared_files) ≡ some (some 4096)
unfolding lookup run_requests perform file_new new_dynamic search_dynamic_file search_from
    find_dynamic_slot find_slot_from note_deleted occupy_slot link_data scan_file
    delete_dynamic_file dynamic_hash dynamic_hash_step cleared_files
shown_behind_deleted = refl

run_requests-refines_example :
    Shows (run_requests some_requests cleared_files) (apply_requests some_requests no_files)
run_requests-refines_example = run_requests-refines some_requests IsLive-some_requests

run_requests-IsSound_example : IsSound (run_requests some_requests cleared_files)
run_requests-IsSound_example = run_requests-IsSound some_requests

cleared_room : cleared_files.count < 2048
unfolding cleared_files
cleared_room = omega arith

file_new-succeeds_example :
    (i : ℕ) × (((file_new 16 cleared_files).0 ≡ some i)
      × (search_dynamic_file 16 (file_new 16 cleared_files).1 ≡ some i))
file_new-succeeds_example =
    file_new-succeeds 16 cleared_files cleared_files-IsSound (ground arith) cleared_room
