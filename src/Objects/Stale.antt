-- ===== src/Objects/Stale.antt =====
-- FidoAuth/pico-keys-sdk/src/fs/object_store.c: an object after it was put, seen through the parser
-- and through older handles.
use key_wallet.Base.{ℕ, ◌+◌, ◌^◌, ◌<◌, ◌≡◌, ◌≢◌, ap, List, some, length, arith}
use key_wallet.Bytes.{ok, stale_handle}
use key_wallet.Objects.{ObjectId, ObjectRecord, object_parse, object_put}
use key_wallet.Objects.Storage.{Files, Outcome, failed, done}
use key_wallet.Objects.Record.{IsId, object_parse-header}
use key_wallet.Objects.Put.{IsFileTable, next_generation, generation_after, object_put-Stored}
use key_wallet.Objects.Handles.{Entry, resolved, resolve_entry}

resolved-done :
    (e : Entry) (o : Outcome ObjectRecord) (r : ObjectRecord)
    → resolved e o ≡ done r
    → (o ≡ done r) × (r.generation ≡ e.entry_generation)
unfolding resolved
resolved-done e o r h = ground arith

resolved-stale :
    (e : Entry) (r : ObjectRecord)
    → r.generation ≢ e.entry_generation
    → resolved e (done r) ≡ failed stale_handle
unfolding resolved
resolved-stale e r h = ground arith

module _ ⦃files : Files⦄ where
  open files use {Store, File, search}

  generation_after-pos : (o : Outcome ObjectRecord) → 0 < generation_after o
  generation_after-pos (failed e) = omega arith
  generation_after-pos (done r) = omega arith

  -- After a put that succeeds, with a generation and a record size that 32 bits hold, the object is
  -- found with the size of the payload and the next generation, where the file table keeps its
  -- promises.
  pub object_put-object_parse :
      (t : IsFileTable) (id : ObjectId) (payload : List ℕ) (s : Store)
      → IsId id
      → length payload + 20 < 2 ^ 32
      → next_generation id s < 2 ^ 32
      → (object_put id payload s).0 ≡ ok
      → object_parse id (search id.fid (object_put id payload s).1) (object_put id payload s).1
        ≡ done (record {
          payload_offset = 20;
          payload_size = length payload;
          generation = next_generation id s;
        })
  object_put-object_parse t id payload s v small bound good =
      let w = object_put-Stored t id payload s good in
      rw w.1 (
        object_parse-header id (next_generation id s) payload w.0 (object_put id payload s).1 v
          (generation_after-pos (object_parse id (search id.fid s) s)) bound small w.2)

  -- A handle that was good for an object is stale once the object was put again, whatever the new
  -- payload is, where the file table keeps its promises and 32 bits hold the new generation and the
  -- size of the record.
  pub object_put-stale :
      (t : IsFileTable) (e : Entry) (r : ObjectRecord) (payload : List ℕ) (s : Store)
      → IsId e.object_id
      → length payload + 20 < 2 ^ 32
      → r.generation + 1 < 2 ^ 32
      → resolve_entry (some e) s ≡ done r
      → (object_put e.object_id payload s).0 ≡ ok
      → resolve_entry (some e) (object_put e.object_id payload s).1 ≡ failed stale_handle
  unfolding resolve_entry
  object_put-stale t e r payload s v small bound before good =
      let p = resolved-done e (object_parse e.object_id (search e.object_id.fid s) s) r before in
      let next : next_generation e.object_id s ≡ r.generation + 1 = ap generation_after p.0 in
      let after =
        object_put-object_parse t e.object_id payload s v small (omega (arith, next, bound)) good in
      rw after (
        resolved-stale e
          (record {
            payload_offset = 20;
            payload_size = length payload;
            generation = next_generation e.object_id s;
          })
          (λ h. omega (arith, next, p.1, h)))
