-- ===== src/Txn/Open.antt =====
-- FidoAuth/pico-keys-sdk/src/fs/object_store_txn.c: what a handle reads.
use key_wallet.Base.{
  ◌⊎◌, ℕ, ◌+◌, ◌-◌, ◌≤◌, ◌<◌, ◌^◌, ◌≡◌, ◌≢◌, inl, inr, refl, sym, ap, ◌∙◌, Bool, true, false, List,
  [], ◌∷◌, Option, none, some, ltb, ◌==◌, if◌then◌else◌, length, take, drop, Bool-cases, arith,
  ==_iff,
}
use key_wallet.Base.Tokens.{draw-free}
use key_wallet.Bytes.{ok, stale_handle, no_memory, file_not_found}
use key_wallet.Objects.Storage.{Files, Outcome, failed, done}
use key_wallet.Txn.{Layout, TxnState, Authenticator, layout_valid}
use key_wallet.Txn.Recover.{recover}
use key_wallet.Txn.Crash.{IsOwn}
use key_wallet.Txn.Write.{txn_put}
use key_wallet.Txn.Disk.{IsDisk}
use key_wallet.Txn.Mac.{IsMac}
use key_wallet.Txn.Headers.{IsLayout}
use key_wallet.Txn.Parts.{HasRecord}
use key_wallet.Txn.Draw.{txn_allocate_from-draw}
use key_wallet.Txn.Atomic.{put_state, txn_put_atomic}
use key_wallet.Txn.Handles.{
  txn_get_info, keep_entry, TxnEntry, TxnHandles, txn_find_in, txn_find_handle, is_found,
  txn_allocate_token, txn_occupy, txn_entry, txn_stored, txn_store_entry, txn_open_state,
  same_state, txn_resolved, txn_open, txn_resolve_entry, txn_resolve, read_file, txn_read_state,
  txn_read_at,
}

abbrev or_else : {A : Type 0} → A → Option A → A
or_else d none = d
or_else d (some a) = a

some_inj : {A : Type 0} {a b : A} → some a ≡ some b → a ≡ b
some_inj {a = a} e = ap (λ o. or_else a o) e

keep_rest :
    (x : TxnEntry) (o : Option (List TxnEntry)) (es1 : List TxnEntry)
    → keep_entry x o ≡ some es1
    → (rest : List TxnEntry) × (o ≡ some rest) × (x ∷ rest ≡ es1)
keep_rest x none es1 e = absurd (ground arith)
keep_rest x (some rest) es1 e = (rest, refl, some_inj e)

head_found : (x : TxnEntry) (es : List TxnEntry) → txn_find_in x.token (x ∷ es) ≡ some x
unfolding txn_find_in
head_found x es = rw ((==_iff x.token x.token).1 refl) refl

occupy-find :
    (new : TxnEntry) (es es1 : List TxnEntry)
    → is_found (txn_find_in new.token es) ≡ false
    → txn_occupy new es ≡ some es1
    → txn_find_in new.token es1 ≡ some new
unfolding txn_occupy txn_find_in
occupy-find new [] es1 free e = absurd (ground arith)
occupy-find new (x ∷ es) es1 free e = elim (Bool-cases (x.token == new.token)) [
  | inl same ↦ absurd (ground arith)
  | inr differs ↦ elim (Bool-cases (x.token == 0)) [
    | inl first ↦ rw (sym (some_inj (rw first at e))) (head_found new es)
    | inr used ↦
        (let p = keep_rest x (txn_occupy new es) es1 (rw used at e) in
          rw (sym p.2, differs) (occupy-find new es p.0 (rw differs at free) p.1))
  ]
]

abbrev done_or : ℕ → Outcome ℕ → ℕ
done_or d (failed e) = d
done_or d (done n) = n

abbrev Answer : Type 0
Answer = Outcome ℕ × TxnHandles

result_token : (p q : Answer) → p ≡ q → done_or 0 p.0 ≡ done_or 0 q.0
result_token p q e = ap (λ (r : Answer). done_or 0 r.0) e

result_table : (p q : Answer) → p ≡ q → p.1 ≡ q.1
result_table p q e = ap (λ (r : Answer). r.1) e

abbrev is_failed : Outcome ℕ → Bool
is_failed (failed e) = true
is_failed (done a) = false

same_failed : (p q : Answer) → p ≡ q → is_failed p.0 ≡ is_failed q.0
same_failed p q e = ap (λ (r : Answer). is_failed r.0) e

not_failed : (p q : Answer) → is_failed p.0 ≡ true → is_failed q.0 ≡ false → p ≢ q
not_failed p q a b e = let r = sym a ∙ same_failed p q e ∙ b in cc

-- A token that is free is found where its entry was put.
placed :
    (layout : Layout) (st : TxnState) (t following : ℕ) (es : List TxnEntry) (h : TxnHandles)
    → txn_allocate_token h ≡ some (t, following)
    → txn_occupy (txn_entry layout st t) h.entries ≡ some es
    → txn_find_handle t (record { entries = es; next_handle = following })
      ≡ some (txn_entry layout st t)
unfolding txn_allocate_token txn_find_handle
placed layout st t following es h drawn e =
    let p =
      draw-free (length h.entries + 2) h.next_handle t following
        (λ u. is_found (txn_find_handle u h))
        (sym (txn_allocate_from-draw (length h.entries + 2) h.next_handle h) ∙ drawn) in
    let nonzero : (t == 0) ≡ false = ground (arith, p.0) in
    rw nonzero (occupy-find (txn_entry layout st t) h.entries es (rw nonzero at p.1) e)

stored-finds :
    (layout : Layout) (st : TxnState) (p : ℕ × ℕ) (o : Option (List TxnEntry)) (h h1 : TxnHandles)
    (t : ℕ)
    → txn_allocate_token h ≡ some p
    → txn_occupy (txn_entry layout st p.0) h.entries ≡ o
    → txn_stored p o h ≡ (done t, h1)
    → txn_find_handle t h1 ≡ some (txn_entry layout st t)
unfolding txn_stored
stored-finds layout st (a, b) none h h1 t drawn e stored = absurd (not_failed _ _ refl refl stored)
stored-finds layout st (a, b) (some es) h h1 t drawn e stored =
    rw (sym (result_token _ _ stored), sym (result_table _ _ stored))
      (placed layout st a b es h drawn e)

store_entry-finds :
    (layout : Layout) (st : TxnState) (o : Option (ℕ × ℕ)) (h h1 : TxnHandles) (t : ℕ)
    → txn_allocate_token h ≡ o
    → txn_store_entry layout st o h ≡ (done t, h1)
    → txn_find_handle t h1 ≡ some (txn_entry layout st t)
unfolding txn_store_entry
store_entry-finds layout st none h h1 t drawn e = absurd (not_failed _ _ refl refl e)
store_entry-finds layout st (some p) h h1 t drawn e =
    stored-finds layout st p (txn_occupy (txn_entry layout st p.0) h.entries) h h1 t drawn refl e

stored-ends :
    (p : ℕ × ℕ) (o : Option (List TxnEntry)) (h : TxnHandles)
    → ((txn_stored p o h).0 ≡ failed no_memory) ⊎ ((t : ℕ) × ((txn_stored p o h).0 ≡ done t))
unfolding txn_stored
stored-ends (a, b) none h = inl refl
stored-ends (a, b) (some es) h = inr (a, refl)

store_entry-ends :
    (layout : Layout) (st : TxnState) (o : Option (ℕ × ℕ)) (h : TxnHandles)
    → ((txn_store_entry layout st o h).0 ≡ failed no_memory)
      ⊎ ((t : ℕ) × ((txn_store_entry layout st o h).0 ≡ done t))
unfolding txn_store_entry
store_entry-ends layout st none h = inl refl
store_entry-ends layout st (some p) h =
    stored-ends p (txn_occupy (txn_entry layout st p.0) h.entries) h

else_branch : {A : Type 0} (b : Bool) (x y : A) → b ≡ false → (if b then x else y) ≡ y
else_branch b x y e = rw e refl

-- What an opened handle stands for: a state that is not deleted.
open_state-finds :
    (layout : Layout) (o : Outcome TxnState) (h h1 : TxnHandles) (t : ℕ)
    → txn_open_state layout h o ≡ (done t, h1)
    → (st : TxnState) × (o ≡ done st)
      × (st.deleted ≡ false)
      × (txn_find_handle t h1 ≡ some (txn_entry layout st t))
unfolding txn_open_state
open_state-finds layout (failed e) h h1 t eq = absurd (not_failed _ _ refl refl eq)
open_state-finds layout (done st) h h1 t eq = elim (Bool-cases st.deleted) [
  | inl gone ↦ absurd (not_failed _ _ refl refl (rw gone at eq))
  | inr live ↦ (
    st,
    refl,
    live,
    store_entry-finds layout st (txn_allocate_token h) h h1 t refl
        (sym (else_branch st.deleted _ _ live) ∙ eq),
  )
]

same_state_refl : (st : TxnState) → st.deleted ≡ false → same_state st st ≡ true
unfolding same_state
same_state_refl st live = ground (arith, live)

newer_differs : (st : TxnState) (len : ℕ) → same_state (put_state st len) st ≡ false
unfolding same_state
newer_differs st len = ground arith

abbrev state_or : TxnState → Outcome TxnState → TxnState
state_or d (failed e) = d
state_or d (done st) = st

done_state : {a b : TxnState} → done a ≡ done b → a ≡ b
done_state {a} e = ap (λ (o : Outcome TxnState). state_or a o) e

module _ ⦃files : Files⦄ (auth : Authenticator) where
  open files use {Store, File, search, read_at}

  open-finds :
      (layout : Layout) (h h1 : TxnHandles) (s : Store) (t : ℕ)
      → txn_open auth layout h s ≡ (done t, h1)
      → (st : TxnState) × (recover layout auth s ≡ done st)
        × (st.deleted ≡ false)
        × (txn_find_handle t h1 ≡ some (txn_entry layout st t))
  unfolding txn_open
  open-finds layout h h1 s t e = elim (Bool-cases (layout_valid layout)) [
    | inl valid ↦ open_state-finds layout (recover layout auth s) h h1 t (rw valid at e)
    | inr bad ↦ absurd (not_failed _ _ refl refl (rw bad at e))
  ]

  resolve_same :
      (layout : Layout) (st : TxnState) (t : ℕ) (s : Store)
      → st.deleted ≡ false
      → recover layout auth s ≡ done st
      → txn_resolve auth (some (txn_entry layout st t)) s ≡ done (txn_entry layout st t, st)
  unfolding txn_resolve txn_resolve_entry txn_resolved
  resolve_same layout st t s live e = rw (e, same_state_refl st live) refl

  read_state-HasRecord :
      (layout : Layout) (st : TxnState) (payload : List ℕ) (offset len : ℕ) (s : Store)
      → st.payload_size ≡ length payload
      → HasRecord layout st.record_slot payload s
      → offset + len ≤ length payload
      → txn_read_state auth layout offset len s st ≡ done (take len (drop offset payload))
  unfolding txn_read_state read_file
  read_state-HasRecord layout st payload offset len s size r fits =
      let a : ltb st.payload_size offset ≡ false = ground (arith, size, fits) in
      let b : ltb (st.payload_size - offset) len ≡ false = ground (arith, size, fits) in
      rw (a, b, r.found) (r.reads offset len fits)

  -- A handle that was opened reads the payload that the record holds.
  pub open_reads :
      (layout : Layout) (h h1 : TxnHandles) (st : TxnState) (payload : List ℕ) (t offset len : ℕ)
      (s : Store)
      → recover layout auth s ≡ done st
      → st.payload_size ≡ length payload
      → HasRecord layout st.record_slot payload s
      → txn_open auth layout h s ≡ (done t, h1)
      → offset + len ≤ length payload
      → txn_read_at auth t offset len h1 s ≡ done (take len (drop offset payload))
  unfolding txn_read_at
  open_reads layout h h1 st payload t offset len s start size r opened fits =
      let p = open-finds layout h h1 s t opened in
      let same : p.0 ≡ st = done_state (sym p.1 ∙ start) in
      let found : txn_find_handle t h1 ≡ some (txn_entry layout st t) =
        p.3 ∙ ap (λ (x : TxnState). some (txn_entry layout x t)) same in
      let live : st.deleted ≡ false = sym (ap (λ (x : TxnState). x.deleted) same) ∙ p.2 in
      rw (found, resolve_same layout st t s live start)
        (read_state-HasRecord layout st payload offset len s size r fits)

  -- Opening an object that is there gives a handle, or there is no memory for one.
  pub open_live :
      (layout : Layout) (h : TxnHandles) (st : TxnState) (s : Store)
      → layout_valid layout ≡ true
      → recover layout auth s ≡ done st
      → st.deleted ≡ false
      → ((txn_open auth layout h s).0 ≡ failed no_memory)
        ⊎ ((t : ℕ) × ((txn_open auth layout h s).0 ≡ done t))
  unfolding txn_open txn_open_state
  open_live layout h st s valid start live =
      rw
        (
          valid,
          start,
          else_branch {A = Answer} st.deleted (failed file_not_found, h)
              (txn_store_entry layout st (txn_allocate_token h) h) live,
        )
        (store_entry-ends layout st (txn_allocate_token h) h)

  -- A handle that was opened tells the size and the generation of the state.
  pub open_info :
      (layout : Layout) (h h1 : TxnHandles) (st : TxnState) (t : ℕ) (s : Store)
      → recover layout auth s ≡ done st
      → txn_open auth layout h s ≡ (done t, h1)
      → txn_get_info auth t h1 s ≡ done (st.payload_size, st.generation)
  unfolding txn_get_info
  open_info layout h h1 st t s start opened =
      let p = open-finds layout h h1 s t opened in
      let same : p.0 ≡ st = done_state (sym p.1 ∙ start) in
      let found : txn_find_handle t h1 ≡ some (txn_entry layout st t) =
        p.3 ∙ ap (λ (x : TxnState). some (txn_entry layout x t)) same in
      let live : st.deleted ≡ false = sym (ap (λ (x : TxnState). x.deleted) same) ∙ p.2 in
      rw (found, resolve_same layout st t s live start) refl

  -- Under the conditions of txn_put_atomic: after a put that succeeds over a current state, a handle
  -- that is opened reads any part of the new payload.
  pub txn_put-read :
      (d : IsDisk) (layout : Layout) (m : IsMac auth) (v : IsLayout layout) (payload : List ℕ)
      (s : Store) (st : TxnState) (h h1 : TxnHandles) (t offset len : ℕ)
      → layout_valid layout ≡ true
      → recover layout auth s ≡ done st
      → IsOwn layout auth st
      → st.generation + 1 < 2 ^ 32
      → length payload + 48 < 2 ^ 32
      → (txn_put layout auth payload s).0 ≡ ok
      → txn_open auth layout h (txn_put layout auth payload s).1 ≡ (done t, h1)
      → offset + len ≤ length payload
      → txn_read_at auth t offset len h1 (txn_put layout auth payload s).1
        ≡ done (take len (drop offset payload))
  txn_put-read d layout m v payload s st h h1 t offset len valid start own small large good opened
        fits =
      elim (txn_put_atomic d layout auth m v payload s st valid start own small large) [
        | inl old ↦ absurd (old.0 good)
        | inr new ↦
            open_reads layout h h1 (put_state st (length payload)) payload t offset len
              (txn_put layout auth payload s).1 new.0 refl new.1 opened fits
      ]

  -- Under the same conditions: a handle that was opened before a put that succeeds gives no byte after
  -- it, only the status of a stale handle.
  pub txn_put-stale :
      (d : IsDisk) (layout : Layout) (m : IsMac auth) (v : IsLayout layout) (payload : List ℕ)
      (s : Store) (st : TxnState) (h h1 : TxnHandles) (t offset len : ℕ)
      → layout_valid layout ≡ true
      → recover layout auth s ≡ done st
      → IsOwn layout auth st
      → st.generation + 1 < 2 ^ 32
      → length payload + 48 < 2 ^ 32
      → (txn_put layout auth payload s).0 ≡ ok
      → txn_open auth layout h s ≡ (done t, h1)
      → txn_read_at auth t offset len h1 (txn_put layout auth payload s).1 ≡ failed stale_handle
  unfolding txn_read_at txn_resolve txn_resolve_entry txn_resolved
  txn_put-stale d layout m v payload s st h h1 t offset len valid start own small large good
        opened =
      elim (txn_put_atomic d layout auth m v payload s st valid start own small large) [
        | inl old ↦ absurd (old.0 good)
        | inr new ↦
            (let p = open-finds layout h h1 s t opened in
              let same : p.0 ≡ st = done_state (sym p.1 ∙ start) in
              let found : txn_find_handle t h1 ≡ some (txn_entry layout st t) =
                p.3 ∙ ap (λ (x : TxnState). some (txn_entry layout x t)) same in
              rw (found, new.0, newer_differs st (length payload)) refl)
      ]
