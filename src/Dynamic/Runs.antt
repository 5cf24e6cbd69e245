-- ===== src/Dynamic/Runs.antt =====
-- FidoAuth/pico-keys-sdk/src/fs/file.c: any sequence of requests on the dynamic files.
use key_wallet.Base.{
  ℕ, ◌≤◌, ◌<◌, ◌≡◌, inl, inr, refl, sym, none, some, List, [], ◌∷◌, Option-cases, arith, All,
}
use key_wallet.Dynamic.{
  DynamicFiles, max_dynamic_files, cleared_files, search_dynamic_file, occupy_slot, file_new,
}
use key_wallet.Dynamic.Path.{IsLive}
use key_wallet.Dynamic.Files.{
  IsSound, file_new-IsSound, cleared_files-IsSound, was_there, refused, occupied, new_case,
}
use key_wallet.Dynamic.Table.{search-IsTable}
use key_wallet.Dynamic.View.{lookup-absent}
use key_wallet.Dynamic.Requests.{file_new-fid}
use key_wallet.Dynamic.Catalog.{
  Request, perform, run_requests, perform-IsSound, run_requests-Shows, apply_requests, no_files,
  asked, Shows,
}

-- After any requests on the cleared table that ask for identifiers other than 0 and 0xffff, a search
-- of each such identifier shows what the map shows: nothing, or the address that was last linked.
-- The counter is the number of files of the map.
pub run_requests-refines :
    (rs : List Request)
    → All (λ r. IsLive (asked r)) rs
    → Shows (run_requests rs cleared_files) (apply_requests rs no_files)
unfolding cleared_files
run_requests-refines rs h =
    run_requests-Shows rs cleared_files no_files cleared_files-IsSound
      (record { same = λ g hg. lookup-absent g cleared_files (λ j e. hg.0 (sym e)); counts = refl })
      h

run_requests_keeps-IsSound :
    (rs : List Request) (d : DynamicFiles) → IsSound d → IsSound (run_requests rs d)
unfolding run_requests
run_requests_keeps-IsSound [] d s = s
run_requests_keeps-IsSound (r ∷ rs) d s =
    run_requests_keeps-IsSound rs (perform r d) (perform-IsSound r d s)

-- After any requests on the cleared table, each file is met by the probes of its identifier before
-- any empty slot, no two slots hold the same file's identifier, the counter is the number of files
-- in the slots, and it is at most 2048.
pub run_requests-IsSound : (rs : List Request) → IsSound (run_requests rs cleared_files)
run_requests-IsSound rs = run_requests_keeps-IsSound rs cleared_files cleared_files-IsSound

new_refused :
    (f : ℕ) (d : DynamicFiles)
    → IsSound d
    → IsLive f
    → (file_new f d).0 ≡ none
    → max_dynamic_files ≤ d.count
unfolding occupy_slot
new_refused f d s h e = elim (new_case f d s) [
  | was_there i there r ↦ absurd (ground (arith, rw r at e))
  | refused absent b r ↦ b h
  | occupied i absent live room place r ↦ absurd (ground (arith, rw r at e))
]

-- While the table is sound and holds fewer than 2048 files, `file_new` on an identifier other than 0
-- and 0xffff returns a slot, and a search of the identifier then finds that slot.
pub file_new-succeeds :
    (f : ℕ) (d : DynamicFiles)
    → IsSound d
    → IsLive f
    → d.count < max_dynamic_files
    → (i : ℕ) × (((file_new f d).0 ≡ some i) × (search_dynamic_file f (file_new f d).1 ≡ some i))
file_new-succeeds f d s h room = elim (Option-cases (file_new f d).0) [
  | inl e ↦ absurd (omega (arith, new_refused f d s h e, room))
  | inr there ↦
      (let same = (file_new-fid f there.0 d s there.1).1 in
        let after = file_new-IsSound f d s in
        let met = search-IsTable (file_new f d).1 there.0 after.table (rw same h) in
        (there.0, (there.1, rw same at met)))
]
