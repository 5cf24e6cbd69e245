-- ===== src/Dynamic/View.antt =====
-- FidoAuth/pico-keys-sdk/src/fs/file.c: what a search of the dynamic files shows after each of the
-- operations.
use key_wallet.Base.{
  ℕ, ◌+◌, ◌%◌, ◌^◌, ◌<◌, ◌≡◌, ◌≢◌, inl, inr, refl, sym, ap, ◌∙◌, Bool, true, false, Option, none,
  some, leb, Option-cases, arith,
}
use key_wallet.Dynamic.{
  Slot, DynamicFiles, dynamic_file_slots, max_dynamic_files, fid_deleted, set_slot,
  search_dynamic_file, find_dynamic_slot, occupy_slot, file_new, delete_dynamic_file,
}
use key_wallet.Dynamic.Path.{IsFree, IsLive, some_index}
use key_wallet.Dynamic.Probes.{search_dynamic_file-lt}
use key_wallet.Dynamic.Count.{live}
use key_wallet.Dynamic.Table.{
  IsTable, search-IsTable, search-fid, find-OnPath, set_slot-same, set_slot-other, same_or_other,
}
use key_wallet.Dynamic.Files.{
  IsSound, search-none, was_there, refused, occupied, new_case, missing, deleted, delete_case,
  emptied, file_new-IsSound, delete_dynamic_file-IsSound,
}

abbrev data_of : Option ℕ → DynamicFiles → Option (Option ℕ)
data_of none d = none
data_of (some i) d = some (d.slots i).data_at

-- The address of the data of the file that a search finds, if it finds one.
unfoldable pub lookup : ℕ → DynamicFiles → Option (Option ℕ)
lookup g d = data_of (search_dynamic_file g d) d

pub lookup-was_there :
    (g i : ℕ) (d : DynamicFiles)
    → IsTable d
    → IsLive g
    → (d.slots i).fid ≡ g
    → lookup g d ≡ some (d.slots i).data_at
unfolding lookup
lookup-was_there g i d t h e =
    let there : search_dynamic_file g d ≡ some i = rw e at (search-IsTable d i t (rw e h)) in
    rw there refl

pub lookup-absent : (g : ℕ) (d : DynamicFiles) → ((j : ℕ) → (d.slots j).fid ≢ g) → lookup g d ≡ none
unfolding lookup
lookup-absent g d none_has = elim (Option-cases (search_dynamic_file g d)) [
  | inl e ↦ rw e refl
  | inr there ↦ absurd (none_has there.0 (search-fid d g there.0 there.1))
]

-- An identifier whose slots have not changed shows the same.
pub lookup-same :
    (g : ℕ) (d e : DynamicFiles)
    → IsTable d
    → IsTable e
    → IsLive g
    → ((j : ℕ) → (d.slots j).fid ≡ g → e.slots j ≡ d.slots j)
    → ((j : ℕ) → (e.slots j).fid ≡ g → (d.slots j).fid ≡ g)
    → lookup g e ≡ lookup g d
lookup-same g d e t u h kept back = elim (Option-cases (search_dynamic_file g d)) [
  | inl absent ↦
      (let fresh = search-none d g t h absent in
        lookup-absent g e (λ j same. fresh j (back j same)) ∙ sym (lookup-absent g d fresh))
  | inr there ↦
      (let same = search-fid d g there.0 there.1 in
        let slot = kept there.0 same in
        lookup-was_there g there.0 e u h (ap (λ (s : Slot). s.fid) slot ∙ same)
        ∙ ap (λ (s : Slot). some s.data_at) slot
        ∙ sym (lookup-was_there g there.0 d t h same))
]

-- A slot that held another identifier, and gets another, changes nothing that this one shows.
pub lookup-set_slot :
    (g i count : ℕ) (new : Slot) (d : DynamicFiles)
    → IsTable d
    → IsTable (record { slots = set_slot i new d.slots; count = count })
    → IsLive g
    → (d.slots i).fid ≢ g
    → new.fid ≢ g
    → lookup g (record { slots = set_slot i new d.slots; count = count }) ≡ lookup g d
lookup-set_slot g i count new d t u h was becomes =
    lookup-same g d (record { slots = set_slot i new d.slots; count = count }) t u h kept back
  where
    kept : (j : ℕ) → (d.slots j).fid ≡ g → set_slot i new d.slots j ≡ d.slots j
    kept j e = elim (same_or_other j i) [
      | inl here ↦ absurd (was (ap (λ (k : ℕ). (d.slots k).fid) (sym here) ∙ e))
      | inr other ↦ set_slot-other i j new d.slots other
    ]

    back : (j : ℕ) → (set_slot i new d.slots j).fid ≡ g → (d.slots j).fid ≡ g
    back j e = elim (same_or_other j i) [
      | inl here ↦ absurd (
          becomes (
            sym (ap (λ (s : Slot). s.fid) (set_slot-same i new d.slots))
            ∙ ap (λ (k : ℕ). (set_slot i new d.slots k).fid) (sym here)
            ∙ e))
      | inr other ↦ sym (ap (λ (s : Slot). s.fid) (set_slot-other i j new d.slots other)) ∙ e
    ]

-- What is shown of a file that is created: one that exists keeps its data.
abbrev pub kept_or_new : Option (Option ℕ) → Bool → Option (Option ℕ)
kept_or_new (some address) full = some address
kept_or_new none true = none
kept_or_new none false = some none

IsFree-other : (g : ℕ) (s : Slot) → IsLive g → IsFree s → s.fid ≢ g
IsFree-other g s h (inl e) same = h.0 (sym same ∙ e)
IsFree-other g s h (inr e) same = h.1 (sym same ∙ e)

occupied_other :
    (f g i : ℕ) (d : DynamicFiles)
    → IsTable d
    → IsTable (occupy_slot f (some i) d).1
    → IsLive g
    → g ≢ f
    → find_dynamic_slot f d ≡ some i
    → lookup g (occupy_slot f (some i) d).1 ≡ lookup g d
unfolding occupy_slot
occupied_other f g i d t u h n place =
    lookup-set_slot g i ((d.count + 1) % 2 ^ 16) (record { fid = f; data_at = none }) d t u h
      (IsFree-other g (d.slots i) h (find-OnPath d f i place).0) (λ e. n (sym e))

occupied_same :
    (f i : ℕ) (d : DynamicFiles)
    → IsTable (occupy_slot f (some i) d).1
    → IsLive f
    → lookup f (occupy_slot f (some i) d).1 ≡ some none
unfolding occupy_slot
occupied_same f i d u h =
    let new : Slot = record { fid = f; data_at = none } in
    let here = set_slot-same i new d.slots in
    lookup-was_there f i (record { slots = set_slot i new d.slots; count = (d.count + 1) % 2 ^ 16 })
      u h (ap (λ (s : Slot). s.fid) here)
    ∙ ap (λ (s : Slot). some s.data_at) here

pub new_other :
    (f g : ℕ) (d : DynamicFiles)
    → IsSound d
    → IsLive g
    → g ≢ f
    → lookup g (file_new f d).1 ≡ lookup g d
new_other f g d s h n = elim (new_case f d s) [
  | was_there i e r ↦ rw r refl
  | refused e b r ↦ rw r refl
  | occupied i absent live room place r ↦
      (let after = (rw r at (file_new-IsSound f d s)).table in
        rw r (occupied_other f g i d s.table after h n place))
]

pub lookup-none : (f : ℕ) (d : DynamicFiles) → search_dynamic_file f d ≡ none → lookup f d ≡ none
unfolding lookup
lookup-none f d e = rw e refl

pub lookup-some :
    (f i : ℕ) (d : DynamicFiles)
    → search_dynamic_file f d ≡ some i
    → lookup f d ≡ some (d.slots i).data_at
unfolding lookup
lookup-some f i d e = rw e refl

pub new_same :
    (f : ℕ) (d : DynamicFiles)
    → IsSound d
    → IsLive f
    → lookup f (file_new f d).1 ≡ kept_or_new (lookup f d) (leb max_dynamic_files d.count)
new_same f d s h = elim (new_case f d s) [
  | was_there i e r ↦ rw (r, lookup-some f i d e) refl
  | refused e b r ↦
      (let full : leb max_dynamic_files d.count ≡ true = ground (arith, b h) in
        rw (r, lookup-none f d e, full) refl)
  | occupied i absent live room place r ↦
      (let after = (rw r at (file_new-IsSound f d s)).table in
        let free : leb max_dynamic_files d.count ≡ false = ground (arith, room) in
        rw (r, lookup-none f d absent, free) (occupied_same f i d after h))
]

pub delete_other :
    (f g : ℕ) (d : DynamicFiles)
    → IsSound d
    → IsLive g
    → g ≢ f
    → lookup g (delete_dynamic_file (search_dynamic_file f d) d).1 ≡ lookup g d
delete_other f g d s h n = elim (delete_case (search_dynamic_file f d) d) [
  | missing b r ↦ rw r refl
  | deleted i e l live r ↦
      (let after = (rw r at (delete_dynamic_file-IsSound (search_dynamic_file f d) d s)).table in
        rw r (
          lookup-set_slot g i ((d.count + 0xffff) % 2 ^ 16)
            (record { fid = fid_deleted; data_at = none }) d s.table after h
            (λ e'. n (sym e' ∙ search-fid d f i e)) (λ e'. h.1 (sym e'))))
]

pub delete_same :
    (f : ℕ) (d : DynamicFiles)
    → IsSound d
    → IsLive f
    → lookup f (delete_dynamic_file (search_dynamic_file f d) d).1 ≡ none
delete_same f d s h = elim (delete_case (search_dynamic_file f d) d) [
  | missing b r ↦ rw r (lookup-absent f d (nowhere b))
  | deleted i e l live r ↦ rw r (lookup-absent f (emptied i d) (vacated i e))
]
  where
    nowhere :
        ((i : ℕ)
          → search_dynamic_file f d ≡ some i
          → i < dynamic_file_slots
          → ¬ IsLive (d.slots i).fid)
        → (j : ℕ) → (d.slots j).fid ≢ f
    nowhere b j e =
        let there : search_dynamic_file f d ≡ some j =
          rw e at (search-IsTable d j s.table (rw e h)) in
        b j there (search_dynamic_file-lt f j d there) (rw e h)

    vacated : (i : ℕ) → search_dynamic_file f d ≡ some i → (j : ℕ) → ((emptied i d).slots j).fid ≢ f
    vacated i found_at j e = elim (same_or_other j i) [
      | inl here ↦ h.1 (
          sym e
          ∙ ap (λ (k : ℕ). ((emptied i d).slots k).fid) here
          ∙ ap (λ (s : Slot). s.fid)
              (set_slot-same i (record { fid = fid_deleted; data_at = none }) d.slots))
      | inr other ↦
          (let unchanged =
              set_slot-other i j (record { fid = fid_deleted; data_at = none }) d.slots other in
            let same : (d.slots j).fid ≡ f = sym (ap (λ (s : Slot). s.fid) unchanged) ∙ e in
            let there : search_dynamic_file f d ≡ some j =
              rw same at (search-IsTable d j s.table (rw same h)) in
            other (some_index (sym there ∙ found_at)))
    ]
