-- ===== src/Container/Fresh.antt =====
-- FidoAuth/pico-keys-sdk/src/fs/object_container.c, file_object_record_id_allocate: the identifiers it
-- hands out.
use key_wallet.Base.{
  ℕ, zero, suc, ◌+◌, ◌*◌, ◌^◌, ◌≤◌, ◌<◌, ◌≡◌, ◌≢◌, ◌⊎◌, inl, inr, refl, ap, true, not, ◌&&◌, List,
  [], ◌∷◌, some, length, take, drop, Bool-cases, arith, ◌==◌,
}
use key_wallet.Bytes.{Status, ok, no_memory}
use key_wallet.Bytes.Wide.{get_uint64_be, put_uint64_be, get-put_uint64_be}
use key_wallet.Policy.{is_ok}
use key_wallet.Objects.Storage.{Files, Outcome, failed, done}
use key_wallet.Txn.{Layout, Authenticator, layout_valid}
use key_wallet.Txn.Write.{txn_put}
use key_wallet.Txn.Disk.{is_ok-true, IsDisk}
use key_wallet.Txn.Replace.{then_do-cases}
use key_wallet.Txn.Mac.{IsMac}
use key_wallet.Txn.Headers.{IsLayout}
use key_wallet.Txn.Handles.{TxnHandles, txn_open, txn_close}
use key_wallet.Txn.Open.{open_reads, open_info, open_live}
use key_wallet.Txn.Refines.{Cell, put, Step, kept, replaced, Represents, Shows, put-Stepped}
use key_wallet.Container.{
  id_state, id_state_ok, next_of, closed, stored_next, next_id, store_id, granted, allocate_stored,
  record_id_allocate,
}

id_state-length : (id : ℕ) → length (id_state id) ≡ 16
unfolding id_state put_uint64_be
id_state-length id = refl

got : (id : ℕ) → id < 2 ^ 64 → get_uint64_be (put_uint64_be id) ≡ id
unfolding put_uint64_be
got id small = get-put_uint64_be id [] small

next_of-id_state : (id : ℕ) → 0 < id → id + 1 < 2 ^ 64 → next_of (id_state id) ≡ done (id + 1)
unfolding next_of id_state_ok id_state
next_of-id_state id positive small =
    let there : (not (id == 0) && not (id == 0xffffffffffffffff)) ≡ true =
      ground (arith, positive, small) in
    rw (got id (omega (arith, small)), there) refl

whole_state : (id : ℕ) → take 16 (drop 0 (id_state id)) ≡ id_state id
unfolding id_state put_uint64_be
whole_state id = refl

-- A put leaves the cell, and then it failed, or the new payload in the next generation.
put_ends :
    {c c1 : Cell} {b : List ℕ} {e : Status}
    → Step c (put b) e c1
    → ((e ≢ ok) × (c1 ≡ c)) ⊎ ((c1.content ≡ some b) × (c1.cell_generation ≡ c.cell_generation + 1))
put_ends (kept bad) = inl (bad, refl)
put_ends replaced = inr (refl, refl)

module _ ⦃files : Files⦄ (d : IsDisk) (layout : Layout) (auth : Authenticator) (m : IsMac auth)
    (v : IsLayout layout) (valid : layout_valid layout ≡ true) where
  open files use {Store}

  -- The store has the identifier as the last one, in a generation up to `g`.
  pub record LastId (id g : ℕ) (s : Store) : Type 0 where
    pub object : Cell
    pub represents : Represents layout auth object s
    pub stored : object.content ≡ some (id_state id)
    pub bounded : object.cell_generation ≤ g

  LastId-Shows :
      (id g : ℕ) (s : Store) (l : LastId id g s)
      → Shows layout auth (some (id_state id)) l.represents.current s
  LastId-Shows id g s l = rw l.stored at l.represents.shows

  -- A put of a state leaves the last identifier, and then it failed, or makes the new one the last.
  put_id :
      (id new g : ℕ) (s : Store)
      → LastId id g s
      → g + 1 < 2 ^ 32
      → (((txn_put layout auth (id_state new) s).0 ≢ ok)
          × LastId id g (txn_put layout auth (id_state new) s).1)
        ⊎ LastId new (g + 1) (txn_put layout auth (id_state new) s).1
  put_id id new g s l small =
      let r = l.represents in
      let p =
        put-Stepped layout auth d m v valid l.object (id_state new) s r
          (omega (arith, r.same_generation, l.bounded, small))
          (omega (arith, id_state-length new)) in
      elim (put_ends p.1) [
        | inl old ↦ inl (
          old.0,
          record {
            object = l.object;
            represents = rw old.1 at p.2;
            stored = l.stored;
            bounded = l.bounded;
          },
        )
        | inr wrote ↦ inr (record {
          object = p.0;
          represents = p.2;
          stored = wrote.0;
          bounded = omega (arith, wrote.1, l.bounded);
        })
      ]

  LastId-later : (id g k : ℕ) (s : Store) → g ≤ k → LastId id g s → LastId id k s
  LastId-later id g k s h l = record {
    object = l.object;
    represents = l.represents;
    stored = l.stored;
    bounded = omega (arith, l.bounded, h);
  }

  -- The second put puts the state that is there already.
  store_id-LastId :
      (id new g : ℕ) (s : Store)
      → LastId id g s
      → g + 2 < 2 ^ 32
      → (((store_id layout auth new s).0 ≢ ok) × LastId id (g + 2) (store_id layout auth new s).1)
        ⊎ LastId new (g + 2) (store_id layout auth new s).1
  unfolding store_id
  store_id-LastId id new g s l small =
      let first = txn_put layout auth (id_state new) s in
      elim (put_id id new g s l (omega (arith, small))) [
        | inl old ↦ elim (then_do-cases first (txn_put layout auth (id_state new))) [
          | inl stopped ↦
              rw stopped.1 (inl (old.0, LastId-later id g (g + 2) first.1 (omega arith) old.1))
          | inr went ↦ absurd (old.0 went.0)
        ]
        | inr wrote ↦ elim (then_do-cases first (txn_put layout auth (id_state new))) [
          | inl stopped ↦
              rw stopped.1 (inr (LastId-later new (g + 1) (g + 2) first.1 (omega arith) wrote))
          | inr went ↦
              rw went.1 (elim (put_id new new (g + 1) first.1 wrote (omega (arith, small))) [
                | inl again ↦ inr (LastId-later new (g + 1) (g + 2) _ (omega arith) again.1)
                | inr twice ↦ inr (LastId-later new (g + 1 + 1) (g + 2) _ (omega arith) twice)
              ])
        ]
      ]

  stored_next-LastId :
      (id g handle : ℕ) (s : Store) (h h1 : TxnHandles)
      → LastId id g s
      → 0 < id
      → id + 1 < 2 ^ 64
      → txn_open auth layout h s ≡ (done handle, h1)
      → stored_next layout auth handle h1 s ≡ done (id + 1)
  unfolding stored_next
  stored_next-LastId id g handle s h h1 l positive small opened =
      let r = l.represents in
      let shows = LastId-Shows id g s l in
      rw
        (
          open_info auth layout h h1 r.current handle s r.recovered opened,
          shows.1,
          id_state-length id,
          open_reads auth layout h h1 r.current (id_state id) handle 0 16 s r.recovered shows.1
              shows.2 opened (omega (arith, id_state-length id)),
          whole_state id,
        )
        (next_of-id_state id positive small)

  abbrev FailsOr : ℕ → Outcome ℕ → Type 0
  FailsOr id o = ((e : Status) × (o ≡ failed e)) ⊎ (o ≡ done id)

  next_id-failed :
      (r : Outcome ℕ × TxnHandles) (s : Store)
      → r.0 ≡ failed no_memory
      → (next_id layout auth r s).0 ≡ failed no_memory
  unfolding next_id
  next_id-failed (o, h) s e = rw e refl

  next_id-done :
      (r : Outcome ℕ × TxnHandles) (handle id : ℕ) (s : Store)
      → r.0 ≡ done handle
      → (r ≡ (done handle, r.1) → stored_next layout auth handle r.1 s ≡ done id)
      → FailsOr id (next_id layout auth r s).0
  unfolding next_id closed
  next_id-done (o, h) handle id s e next =
      let same : (o, h) ≡ (done handle, h) = ap (λ (x : Outcome ℕ). (x, h)) e in
      let known : stored_next layout auth handle h s ≡ done id = next same in
      elim (Bool-cases (is_ok (txn_close handle h).0)) [
        | inl good ↦ rw (e, known, good) (inr refl)
        | inr bad ↦ rw (e, known, bad) (inl ((txn_close handle h).0, refl))
      ]

  next_id-LastId :
      (id g : ℕ) (s : Store) (h : TxnHandles)
      → LastId id g s
      → 0 < id
      → id + 1 < 2 ^ 64
      → FailsOr (id + 1) (next_id layout auth (txn_open auth layout h s) s).0
  next_id-LastId id g s h l positive small =
      let r = l.represents in
      let opened = txn_open auth layout h s in
      elim (open_live auth layout h r.current s valid r.recovered (LastId-Shows id g s l).0) [
        | inl full ↦ inl (no_memory, next_id-failed opened s full)
        | inr there ↦
            next_id-done opened there.0 (id + 1) s there.1
              (stored_next-LastId id g there.0 s h opened.1 l positive small)
      ]

  -- The next identifier and it is the last one of the store, or a failure.
  abbrev pub Allocated : ℕ → ℕ → Outcome ℕ × Store → Type 0
  Allocated id g result =
      ((result.0 ≡ done (id + 1)) × LastId (id + 1) g result.1)
      ⊎ (((e : Status) × (result.0 ≡ failed e))
          × (LastId id g result.1 ⊎ LastId (id + 1) g result.1))

  granted-ends :
      (id g : ℕ) (r : Status × Store)
      → ((r.0 ≢ ok) × LastId id g r.1) ⊎ LastId (id + 1) g r.1
      → Allocated id g (granted layout auth (id + 1) r)
  unfolding granted
  granted-ends id g (e, s) ends = elim (Bool-cases (is_ok e)) [
    | inl good ↦ elim ends [
      | inl old ↦ absurd (old.0 (is_ok-true e good))
      | inr wrote ↦ rw good (inl (refl, wrote))
    ]
    | inr bad ↦ elim ends [
      | inl old ↦ rw bad (inr ((e, refl), inl old.1))
      | inr wrote ↦ rw bad (inr ((e, refl), inr wrote))
    ]
  ]

  allocate_stored-LastId :
      (id g : ℕ) (s : Store) (o : Outcome ℕ)
      → LastId id g s
      → g + 2 < 2 ^ 32
      → FailsOr (id + 1) o
      → Allocated id (g + 2) (allocate_stored layout auth o s)
  unfolding allocate_stored
  allocate_stored-LastId id g s o l small (inl bad) =
      rw bad.1 (inr ((bad.0, refl), inl (LastId-later id g (g + 2) s (omega arith) l)))
  allocate_stored-LastId id g s o l small (inr next) = rw next (
      granted-ends id (g + 2) (store_id layout auth (id + 1) s)
        (store_id-LastId id (id + 1) g s l small))

  -- Where the file table keeps its promises on plain identifiers, no file of the object is EF_META, the
  -- authenticator is a MAC, the layout is valid, the store has a last identifier, and 64 and 32 bits have room for the next identifier and two more generations: an allocation hands out
  -- the identifier after the last one and makes it the last one, or it fails, and then the last one is
  -- as it was or the one after it.
  pub record_id_allocate_lem :
      (id g : ℕ) (s : Store) (h : TxnHandles)
      → LastId id g s
      → 0 < id
      → id + 1 < 2 ^ 64
      → g + 2 < 2 ^ 32
      → Allocated id
          (g + 2)
          ((record_id_allocate layout auth h s).0, (record_id_allocate layout auth h s).2)
  unfolding record_id_allocate
  record_id_allocate_lem id g s h l positive small room =
      allocate_stored-LastId id g s (next_id layout auth (txn_open auth layout h s) s).0 l room
        (next_id-LastId id g s h l positive small)

  -- Allocations one after the other, whatever they return.
  unfoldable pub allocate_all : ℕ → TxnHandles → Store → List (Outcome ℕ)
  allocate_all zero h s = []
  allocate_all (suc n) h s =
      let r = record_id_allocate layout auth h s in r.0 ∷ allocate_all n r.1 r.2

  -- The identifiers that were handed out are above `id`, each above those before it.
  abbrev pub Increasing : ℕ → List (Outcome ℕ) → Type 0
  Increasing id [] = Unit {0}
  Increasing id (failed e ∷ os) = Increasing id os
  Increasing id (done new ∷ os) = (id < new) × Increasing new os

  Increasing-earlier : (a b : ℕ) (os : List (Outcome ℕ)) → a ≤ b → Increasing b os → Increasing a os
  Increasing-earlier a b [] h i = tt
  Increasing-earlier a b (failed e ∷ os) h i = Increasing-earlier a b os h i
  Increasing-earlier a b (done new ∷ os) h i = (omega (arith, h, i.0), i.1)

  -- Under the same conditions, with room for all: no identifier is handed out twice by allocations in
  -- a row, whatever fails in them; each is above those before it.
  pub allocate_all-Increasing :
      (n id g : ℕ) (s : Store) (h : TxnHandles)
      → LastId id g s
      → 0 < id
      → id + n < 2 ^ 64
      → g + 2 * n < 2 ^ 32
      → Increasing id (allocate_all n h s)
  unfolding allocate_all
  allocate_all-Increasing zero id g s h l positive small room = tt
  allocate_all-Increasing (suc n) id g s h l positive small room =
      let r = record_id_allocate layout auth h s in
      elim (record_id_allocate_lem id g s h l positive (omega (arith, small))
        (omega (arith, room))) [
          | inl new ↦ rw new.0 (
            omega arith,
            allocate_all-Increasing n (id + 1) (g + 2) r.2 r.1 new.1 (omega arith)
                (omega (arith, small)) (omega (arith, room)),
          )
          | inr bad ↦ rw bad.0.1 (elim bad.1 [
            | inl old ↦
                allocate_all-Increasing n id (g + 2) r.2 r.1 old positive (omega (arith, small))
                  (omega (arith, room))
            | inr skipped ↦ Increasing-earlier id (id + 1) (allocate_all n r.1 r.2) (omega arith) (
                allocate_all-Increasing n (id + 1) (g + 2) r.2 r.1 skipped (omega arith)
                  (omega (arith, small)) (omega (arith, room)))
          ])
        ]
