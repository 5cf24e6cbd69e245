-- ===== src/Txn/Refines.antt =====
-- FidoAuth/pico-keys-sdk/src/fs/object_store_txn.c: an object as an abstract cell, and puts and
-- deletions in a row as steps of it.
use key_wallet.Base.{
  ℕ, ◌+◌, ◌≤◌, ◌<◌, ◌^◌, ◌≡◌, ◌≢◌, inl, inr, refl, ap, ◌∙◌, true, false, List, [], ◌∷◌, Option,
  none, some, length, arith,
}
use key_wallet.Bytes.{Status, ok, file_not_found}
use key_wallet.Objects.Storage.{Files, done}
use key_wallet.Txn.{Layout, at_slot, TxnState, Authenticator, layout_valid, record_header_size}
use key_wallet.Txn.Recover.{recover, parse_commit}
use key_wallet.Txn.Frame.{SameFile}
use key_wallet.Txn.Crash.{SameSlot, IsOwn, other}
use key_wallet.Txn.Write.{txn_put, txn_delete, delete_from}
use key_wallet.Txn.Disk.{is_ok-false, IsDisk}
use key_wallet.Txn.Mac.{IsMac}
use key_wallet.Txn.Progress.{layout_valid-ArePlain, layout_valid-Apart, Unharmed, Unharmed-recover}
use key_wallet.Txn.Headers.{IsLayout}
use key_wallet.Txn.Parts.{HasRecord}
use key_wallet.Txn.Atomic.{put_state, delete_state, put_parts, delete_parts, put-new}

-- The abstract object: its generation, and its payload unless it is deleted.
pub record Cell : Type 0 where
  pub cell_generation : ℕ
  pub content : Option (List ℕ)

pub data Op : Type 0 where
  put : List ℕ → Op
  delete : Op

abbrev pub cell : ℕ → Option (List ℕ) → Cell
cell g content = record { cell_generation = g; content = content }

-- A step and its status: with a failure the cell may be as it was.
pub data Step : Cell → Op → Status → Cell → Type 0 where
  kept : {c : Cell} {op : Op} {e : Status} → e ≢ ok → Step c op e c
  replaced :
      {g : ℕ} {old : Option (List ℕ)} {b : List ℕ} {e : Status}
      → Step (cell g old) (put b) e (cell (g + 1) (some b))
  removed : {g : ℕ} {b : List ℕ} {e : Status} → Step (cell g (some b)) delete e (cell (g + 1) none)

pub data Run : Cell → List Op → List Status → Cell → Type 0 where
  finished : {c : Cell} → Run c [] [] c
  next :
      {c c1 c2 : Cell} {op : Op} {ops : List Op} {e : Status} {es : List Status}
      → Step c op e c1
      → Run c1 ops es c2
      → Run c (op ∷ ops) (e ∷ es) c2

-- The payloads leave room for the header and the tag of a record.
abbrev pub AreSmall : List Op → Type 0
AreSmall [] = Unit {0}
AreSmall (put b ∷ ops) = (length b + 48 < 2 ^ 32) × AreSmall ops
AreSmall (delete ∷ ops) = AreSmall ops

removal :
    (c : Cell) (b : List ℕ) (e : Status)
    → c.content ≡ some b
    → Step c delete e (cell (c.cell_generation + 1) none)
removal c b e h = rw h removed

module _ ⦃files : Files⦄ (layout : Layout) (auth : Authenticator) where
  open files use {Store}

  abbrev pub apply_op : Op → Store → Status × Store
  apply_op (put b) s = txn_put layout auth b s
  apply_op delete s = txn_delete layout auth s

  -- The operations one after the other, whatever they return.
  unfoldable pub apply_ops : List Op → Store → List Status × Store
  apply_ops [] s = ([], s)
  apply_ops (op ∷ ops) s =
      let r = apply_op op s in let rest = apply_ops ops r.1 in (r.0 ∷ rest.0, rest.1)

  abbrev pub Shows : Option (List ℕ) → TxnState → Store → Type 0
  Shows none st s = st.deleted ≡ true
  Shows (some b) st s =
      (st.deleted ≡ false) × (st.payload_size ≡ length b) × HasRecord layout st.record_slot b s

  -- The store holds the abstract object: its state is the recovered one.
  pub record Represents (c : Cell) (s : Store) : Type 0 where
    pub current : TxnState
    pub recovered : recover layout auth s ≡ done current
    pub own : IsOwn layout auth current
    pub same_generation : current.generation ≡ c.cell_generation
    pub shows : Shows c.content current s

  HasRecord-SameFile :
      (slot : ℕ) (b : List ℕ) (s t : Store)
      → SameFile (at_slot slot layout.record_fid) s t
      → HasRecord layout slot b s
      → HasRecord layout slot b t
  HasRecord-SameFile slot b s t same r = record {
    file = r.file;
    found = same.same_search ∙ r.found;
    reads = λ offset len fits.
        (same.alike r.file r.found).same_read (record_header_size + offset) len
        ∙ r.reads offset len fits;
  }

  Shows-same :
      (o : Option (List ℕ)) (st : TxnState) (s t : Store)
      → SameFile (at_slot st.record_slot layout.record_fid) s t
      → Shows o st s
      → Shows o st t
  Shows-same none st s t same gone = gone
  Shows-same (some b) st s t same h = (h.0, h.1, HasRecord-SameFile st.record_slot b s t same h.2)

  module _ (d : IsDisk) (m : IsMac auth) (v : IsLayout layout)
      (valid : layout_valid layout ≡ true) where
    -- The record of the current state is unharmed with it.
    record_same :
        (st : TxnState) (s t : Store)
        → st.record_slot ≡ st.commit_slot
        → Unharmed d layout auth st (layout_valid-Apart layout st.commit_slot v valid) s t
        → SameFile (at_slot st.record_slot layout.record_fid) s t
    record_same st s t e (inl quiet) = rw e quiet.0.1
    record_same st s t e (inr all) =
        all (at_slot st.record_slot layout.record_fid)
          (layout_valid-ArePlain layout v valid st.record_slot).1

    Shows-Unharmed :
        (o : Option (List ℕ)) (st : TxnState) (s t : Store)
        → IsOwn layout auth st
        → Unharmed d layout auth st (layout_valid-Apart layout st.commit_slot v valid) s t
        → Shows o st s
        → Shows o st t
    Shows-Unharmed none st s t own safe h = h
    Shows-Unharmed (some b) st s t (inl gone) safe h = absurd (ground (arith, gone, h.0))
    Shows-Unharmed (some b) st s t (inr e) safe h =
        Shows-same (some b) st s t (record_same st s t e safe) h

    Represents-Unharmed :
        (c : Cell) (s t : Store) (r : Represents c s)
        → Unharmed d layout auth r.current
            (layout_valid-Apart layout r.current.commit_slot v valid)
            s
            t
        → Represents c t
    Represents-Unharmed c s t r safe = record {
      current = r.current;
      recovered =
          Unharmed-recover d layout auth r.current
            (layout_valid-Apart layout r.current.commit_slot v valid) s t r.own r.recovered safe;
      own = r.own;
      same_generation = r.same_generation;
      shows = Shows-Unharmed c.content r.current s t r.own safe r.shows;
    }

    Represents-new :
        (c : Cell) (s : Store) (r : Represents c s) (new : TxnState) (o : Option (List ℕ))
        (u : Store)
        → r.current.generation + 1 < 2 ^ 32
        → new.generation ≡ r.current.generation + 1
        → IsOwn layout auth new
        → SameSlot layout auth r.current.commit_slot s u
        → parse_commit layout auth (other r.current.commit_slot) u ≡ done new
        → Shows o new u
        → Represents (cell (c.cell_generation + 1) o) u
    Represents-new c s r new o u small e own same parsed shows = record {
      current = new;
      recovered =
          put-new d layout auth m v valid s r.current r.recovered small r.own new u e same parsed;
      own = own;
      same_generation = e ∙ ap (λ (g : ℕ). g + 1) r.same_generation;
      shows = shows;
    }

    -- An operation and its status are a step of the abstract object.
    abbrev pub Stepped : Cell → Op → Status × Store → Type 0
    Stepped c op result = (c1 : Cell) × Step c op result.0 c1 × Represents c1 result.1

    pub put-Stepped :
        (c : Cell) (b : List ℕ) (s : Store) (r : Represents c s)
        → r.current.generation + 1 < 2 ^ 32
        → length b + 48 < 2 ^ 32
        → Stepped c (put b) (txn_put layout auth b s)
    put-Stepped c b s r small fits =
        let result = txn_put layout auth b s in
        elim (put_parts d layout auth m v valid s r.current r.recovered small b fits) [
          | inl old ↦ (c, kept old.0, Represents-Unharmed c s result.1 r old.1)
          | inr new ↦ (
            cell (c.cell_generation + 1) (some b),
            replaced,
            Represents-new c s r (put_state r.current (length b)) (some b) result.1 small refl
                (inr refl) new.0 new.1 (refl, refl, new.2),
          )
        ]

    gone_already :
        (s : Store) (st : TxnState)
        → recover layout auth s ≡ done st
        → st.deleted ≡ true
        → txn_delete layout auth s ≡ (file_not_found, s)
    unfolding txn_delete delete_from
    gone_already s st e gone = rw (valid, e, gone) refl

    delete-Stepped :
        (c : Cell) (s : Store) (r : Represents c s)
        → r.current.generation + 1 < 2 ^ 32
        → Stepped c delete (txn_delete layout auth s)
    delete-Stepped c s r small = go c.content refl
      where
        go : (o : Option (List ℕ)) → c.content ≡ o → Stepped c delete (txn_delete layout auth s)
        go none e =
            let gone : Shows none r.current s = rw e at r.shows in
            rw (gone_already s r.current r.recovered gone) (c, kept (is_ok-false _ refl), r)
        go (some b) e =
            let live : Shows (some b) r.current s = rw e at r.shows in
            let result = txn_delete layout auth s in
            elim (delete_parts d layout auth m v valid s r.current r.recovered small live.0) [
              | inl old ↦ (c, kept old.0, Represents-Unharmed c s result.1 r old.1)
              | inr new ↦ (
                cell (c.cell_generation + 1) none,
                removal c b result.0 e,
                Represents-new c s r (delete_state r.current) none result.1 small refl (inl refl)
                    new.0 new.1 refl,
              )
            ]

    op-Stepped :
        (c : Cell) (op : Op) (ops : List Op) (s : Store) (r : Represents c s)
        → r.current.generation + 1 < 2 ^ 32
        → AreSmall (op ∷ ops)
        → Stepped c op (apply_op op s)
    op-Stepped c (put b) ops s r small fits = put-Stepped c b s r small fits.0
    op-Stepped c delete ops s r small fits = delete-Stepped c s r small

    AreSmall-rest : (op : Op) (ops : List Op) → AreSmall (op ∷ ops) → AreSmall ops
    AreSmall-rest (put b) ops h = h.1
    AreSmall-rest delete ops h = h

    Step-generation :
        {c c1 : Cell} {op : Op} {e : Status}
        → Step c op e c1
        → c1.cell_generation ≤ c.cell_generation + 1
    Step-generation (kept bad) = omega arith
    Step-generation replaced = omega arith
    Step-generation removed = omega arith

    -- Where the file table keeps its promises on plain identifiers, no file of the object is EF_META, the
    -- authenticator is a MAC and the layout is valid: from
    -- a store that represents an object, puts of small payloads and deletions in a row, as many as the
    -- generation has room for, whatever fails in them, are a run of the abstract object with the
    -- statuses they return, and the store represents its end.
    pub apply_ops-Run :
        (ops : List Op) (c : Cell) (s : Store)
        → Represents c s
        → c.cell_generation + length ops < 2 ^ 32
        → AreSmall ops
        → (c1 : Cell) × Run c ops (apply_ops ops s).0 c1 × Represents c1 (apply_ops ops s).1
    unfolding apply_ops
    apply_ops-Run [] c s r small fits = (c, finished, r)
    apply_ops-Run (op ∷ ops) c s r small fits =
        let first = op-Stepped c op ops s r (omega (arith, small, r.same_generation)) fits in
        let rest =
          apply_ops-Run ops first.0 (apply_op op s).1 first.2
            (omega (arith, small, Step-generation first.1)) (AreSmall-rest op ops fits) in
        (rest.0, next first.1 rest.1, rest.2)
