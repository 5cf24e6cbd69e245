-- ===== src/Dynamic/Path.antt =====
-- FidoAuth/pico-keys-sdk/src/fs/file.c: the probes of the two loops of the dynamic files.
use key_wallet.Base.{
  ℕ, zero, suc, ◌≡◌, ◌≢◌, ◌⊎◌, inl, inr, refl, sym, ap, ◌∙◌, true, false, Option, none, some, ◌==◌,
  Bool-cases, arith, ==_iff,
}
use key_wallet.Dynamic.{
  Slot, fid_empty, fid_deleted, next_slot, search_from, deleted_or, note_deleted, find_slot_from,
}

-- Some probe of the next ones meets the slot, and no empty slot is met before it.
abbrev pub Reaches : ℕ → ℕ → ℕ → (ℕ → Slot) → ℕ → Type 0
Reaches zero slot step slots i = ◌≡◌ {A = ℕ} 0 1
Reaches (suc probes) slot step slots i =
    (slot ≡ i)
    ⊎ (((slots slot).fid ≢ fid_empty) × Reaches probes (next_slot slot step) step slots i)

-- No slot has become empty.
abbrev pub StaysFilled : (ℕ → Slot) → (ℕ → Slot) → Type 0
StaysFilled s t = (i : ℕ) → (s i).fid ≢ fid_empty → (t i).fid ≢ fid_empty

pub Reaches-StaysFilled :
    (probes slot step i : ℕ) (s t : ℕ → Slot)
    → StaysFilled s t
    → Reaches probes slot step s i
    → Reaches probes slot step t i
Reaches-StaysFilled zero slot step i s t h r = r
Reaches-StaysFilled (suc probes) slot step i s t h (inl here) = inl here
Reaches-StaysFilled (suc probes) slot step i s t h (inr later) =
    inr (h slot later.0, Reaches-StaysFilled probes (next_slot slot step) step i s t h later.1)

-- A slot with the identifier that is reached, and the only one with it, is found.
pub search_from-Reaches :
    (probes slot step i f : ℕ) (s : ℕ → Slot)
    → f ≢ fid_empty
    → (s i).fid ≡ f
    → ((j : ℕ) → (s j).fid ≡ f → j ≡ i)
    → Reaches probes slot step s i
    → search_from probes slot step f s ≡ some i
unfolding search_from
search_from-Reaches zero slot step i f s live there only r = absurd (omega arith)
search_from-Reaches (suc probes) slot step i f s live there only (inl here) =
    let same : (s slot).fid ≡ f = ap (λ (j : ℕ). (s j).fid) here ∙ there in
    let filled : (f == 0) ≡ false = ground (arith, live) in
    let equal : (f == f) ≡ true = (==_iff f f).1 refl in rw (same, filled, equal) (ap some here)
search_from-Reaches (suc probes) slot step i f s live there only (inr later) =
    let filled : ((s slot).fid == 0) ≡ false = ground (arith, later.0) in
    let rest =
      search_from-Reaches probes (next_slot slot step) step i f s live there only later.1 in
    elim (Bool-cases ((s slot).fid == f)) [
      | inl same ↦ rw (filled, same) (ap some (only slot ((==_iff (s slot).fid f).0 same)))
      | inr differs ↦ rw (filled, differs) rest
    ]

abbrev index_or : ℕ → Option ℕ → ℕ
index_or d none = d
index_or d (some i) = i

pub some_index : {i j : ℕ} → some i ≡ some j → i ≡ j
some_index {i} e = ap (λ (o : Option ℕ). index_or i o) e

-- What is found has the identifier.
pub search_from-fid :
    (probes slot step i f : ℕ) (s : ℕ → Slot)
    → search_from probes slot step f s ≡ some i
    → (s i).fid ≡ f
unfolding search_from
search_from-fid zero slot step i f s e = absurd (ground arith)
search_from-fid (suc probes) slot step i f s e = elim (Bool-cases ((s slot).fid == 0)) [
  | inl empty ↦ absurd (ground arith)
  | inr filled ↦ elim (Bool-cases ((s slot).fid == f)) [
    | inl same ↦
        (let here : slot ≡ i = some_index (rw (filled, same) at e) in
          ap (λ (j : ℕ). (s j).fid) (sym here) ∙ (==_iff (s slot).fid f).0 same)
    | inr differs ↦
        search_from-fid probes (next_slot slot step) step i f s (rw (filled, differs) at e)
  ]
]

abbrev pub IsFree : Slot → Type 0
IsFree s = (s.fid ≡ fid_empty) ⊎ (s.fid ≡ fid_deleted)

abbrev pub IsLive : ℕ → Type 0
IsLive f = (f ≢ fid_empty) × (f ≢ fid_deleted)

-- A free slot that is reached, or the one that was noted before.
abbrev pub Finds : Option ℕ → ℕ → ℕ → ℕ → (ℕ → Slot) → ℕ → Type 0
Finds deleted probes slot step s i =
    (deleted ≡ some i) ⊎ (IsFree (s i) × Reaches probes slot step s i)

at_empty :
    (deleted : Option ℕ) (probes slot step i : ℕ) (s : ℕ → Slot)
    → (s slot).fid ≡ fid_empty
    → deleted_or deleted slot ≡ i
    → Finds deleted (suc probes) slot step s i
at_empty none probes slot step i s empty here =
    inr (inl (ap (λ (j : ℕ). (s j).fid) (sym here) ∙ empty), inl here)
at_empty (some d) probes slot step i s empty here = inl (ap some here)

at_deleted :
    (probes slot step i : ℕ) (s : ℕ → Slot)
    → note_deleted none slot s ≡ some i
    → Finds none (suc probes) slot step s i
unfolding note_deleted
at_deleted probes slot step i s e = elim (Bool-cases ((s slot).fid == fid_deleted)) [
  | inl gone ↦
      (let here : slot ≡ i = some_index (rw gone at e) in
        inr (
          inr (ap (λ (j : ℕ). (s j).fid) (sym here) ∙ (==_iff (s slot).fid fid_deleted).0 gone),
          inl here,
        ))
  | inr live ↦ absurd (ground arith)
]

at_filled :
    (deleted : Option ℕ) (probes slot step i : ℕ) (s : ℕ → Slot)
    → (s slot).fid ≢ fid_empty
    → Finds (note_deleted deleted slot s) probes (next_slot slot step) step s i
    → Finds deleted (suc probes) slot step s i
unfolding note_deleted
at_filled deleted probes slot step i s filled (inr later) = inr (later.0, inr (filled, later.1))
at_filled (some d) probes slot step i s filled (inl noted) = inl noted
at_filled none probes slot step i s filled (inl noted) = at_deleted probes slot step i s noted

pub find_slot_from-Finds :
    (probes : ℕ) (deleted : Option ℕ) (slot step i : ℕ) (s : ℕ → Slot)
    → find_slot_from probes deleted slot step s ≡ some i
    → Finds deleted probes slot step s i
unfolding find_slot_from
find_slot_from-Finds zero deleted slot step i s e = inl e
find_slot_from-Finds (suc probes) deleted slot step i s e =
    elim (Bool-cases ((s slot).fid == fid_empty)) [
      | inl empty ↦
          at_empty deleted probes slot step i s ((==_iff (s slot).fid fid_empty).0 empty)
            (some_index (rw empty at e))
      | inr filled ↦ at_filled deleted probes slot step i s (ground (arith, filled)) (
          find_slot_from-Finds probes (note_deleted deleted slot s) (next_slot slot step) step i s
            (rw filled at e))
    ]
