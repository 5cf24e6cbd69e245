-- ===== src/Dynamic/Table.antt =====
-- FidoAuth/pico-keys-sdk/src/fs/file.c: the dynamic files as a map from identifiers.
use key_wallet.Base.{
  ℕ, ◌≡◌, ◌≢◌, ◌⊎◌, inl, inr, refl, sym, ap, ◌∙◌, false, none, some, ◌==◌, Bool-cases, arith,
  ==_iff,
}
use key_wallet.Dynamic.{
  Slot, DynamicFiles, dynamic_file_slots, fid_empty, set_slot, dynamic_hash, dynamic_hash_step,
  search_dynamic_file, find_dynamic_slot,
}
use key_wallet.Dynamic.Path.{
  Reaches, StaysFilled, Reaches-StaysFilled, search_from-Reaches, search_from-fid, IsFree, IsLive,
  find_slot_from-Finds,
}

-- The slot is on the probes of the identifier, behind no empty one.
pub OnPath : ℕ → (ℕ → Slot) → ℕ → Type 0
OnPath f slots i = Reaches dynamic_file_slots (dynamic_hash f) (dynamic_hash_step f) slots i

-- Every file is where the probes of its identifier meet it, and no identifier has two.
pub record IsTable (d : DynamicFiles) : Type 0 where
  pub on_path : (i : ℕ) → IsLive (d.slots i).fid → OnPath (d.slots i).fid d.slots i
  pub only : (i j : ℕ) → IsLive (d.slots i).fid → (d.slots j).fid ≡ (d.slots i).fid → j ≡ i

pub OnPath-StaysFilled : (f i : ℕ) (s t : ℕ → Slot) → StaysFilled s t → OnPath f s i → OnPath f t i
unfolding OnPath
OnPath-StaysFilled f i s t h r =
    Reaches-StaysFilled dynamic_file_slots (dynamic_hash f) (dynamic_hash_step f) i s t h r

-- The search finds exactly the slot of the identifier.
pub search-IsTable :
    (d : DynamicFiles) (i : ℕ)
    → IsTable d
    → IsLive (d.slots i).fid
    → search_dynamic_file (d.slots i).fid d ≡ some i
unfolding search_dynamic_file OnPath
search-IsTable d i t live =
    search_from-Reaches dynamic_file_slots (dynamic_hash (d.slots i).fid)
      (dynamic_hash_step (d.slots i).fid) i (d.slots i).fid d.slots live.0 refl
      (λ j e. t.only i j live e) (t.on_path i live)

pub search-fid :
    (d : DynamicFiles) (f i : ℕ) → search_dynamic_file f d ≡ some i → (d.slots i).fid ≡ f
unfolding search_dynamic_file
search-fid d f i e =
    search_from-fid dynamic_file_slots (dynamic_hash f) (dynamic_hash_step f) i f d.slots e

pub find-OnPath :
    (d : DynamicFiles) (f i : ℕ)
    → find_dynamic_slot f d ≡ some i
    → IsFree (d.slots i) × OnPath f d.slots i
unfolding find_dynamic_slot OnPath
find-OnPath d f i e =
    elim (find_slot_from-Finds dynamic_file_slots none (dynamic_hash f) (dynamic_hash_step f) i
      d.slots e) [ inl noted ↦ absurd (ground arith) | inr was_there ↦ was_there ]

pub set_slot-same : (i : ℕ) (new : Slot) (s : ℕ → Slot) → set_slot i new s i ≡ new
set_slot-same i new s = rw ((==_iff i i).1 refl) refl

pub set_slot-other : (i j : ℕ) (new : Slot) (s : ℕ → Slot) → j ≢ i → set_slot i new s j ≡ s j
set_slot-other i j new s n = let e : (j == i) ≡ false = ground (arith, n) in rw e refl

pub same_or_other : (j i : ℕ) → (j ≡ i) ⊎ (j ≢ i)
same_or_other j i = elim (Bool-cases (j == i)) [
  | inl same ↦ inl ((==_iff j i).0 same)
  | inr differs ↦ inr (ground (arith, differs))
]

set_slot-StaysFilled :
    (i : ℕ) (new : Slot) (s : ℕ → Slot) → new.fid ≢ fid_empty → StaysFilled s (set_slot i new s)
set_slot-StaysFilled i new s filled j h = elim (same_or_other j i) [
  | inl e ↦ rw (e, set_slot-same i new s) filled
  | inr n ↦ rw (set_slot-other i j new s n) h
]

abbrev marked : ℕ → ℕ → DynamicFiles → ℕ → Slot
marked i f d = set_slot i (record { fid = f; data_at = none }) d.slots

-- A slot that gets a new identifier, or none, is a table again.
module _ (d : DynamicFiles) (t : IsTable d) (i f count : ℕ) (filled : f ≢ fid_empty) where
  abbrev marked_files : DynamicFiles
  marked_files = record { slots = marked i f d; count = count }

  other_path :
      (j : ℕ) → j ≢ i → IsLive (marked i f d j).fid → OnPath (marked i f d j).fid (marked i f d) j
  other_path j n live =
      let e = set_slot-other i j (record { fid = f; data_at = none }) d.slots n in
      rw (ap (λ (s : Slot). s.fid) e) (
        OnPath-StaysFilled (d.slots j).fid j d.slots (marked i f d)
          (set_slot-StaysFilled i (record { fid = f; data_at = none }) d.slots filled)
          (t.on_path j (rw (ap (λ (s : Slot). s.fid) e) at live)))

  pub marked-fid : (j : ℕ) → j ≢ i → (marked i f d j).fid ≡ (d.slots j).fid
  marked-fid j n =
      ap (λ (s : Slot). s.fid) (set_slot-other i j (record { fid = f; data_at = none }) d.slots n)

  pub marked-here : (marked i f d i).fid ≡ f
  marked-here =
      ap (λ (s : Slot). s.fid) (set_slot-same i (record { fid = f; data_at = none }) d.slots)

  other_only :
      (j k : ℕ)
      → j ≢ i
      → k ≢ i
      → IsLive (marked i f d j).fid
      → (marked i f d k).fid ≡ (marked i f d j).fid
      → k ≡ j
  other_only j k nj nk live e =
      t.only j k (rw (marked-fid j nj) at live) (sym (marked-fid k nk) ∙ e ∙ marked-fid j nj)

  marked_files-only :
      (IsLive f → (j : ℕ) → (d.slots j).fid ≢ f)
      → (j k : ℕ) → IsLive (marked i f d j).fid
      → (marked i f d k).fid ≡ (marked i f d j).fid
      → k ≡ j
  marked_files-only fresh j k live e = elim (same_or_other j i) [
    | inl ej ↦ elim (same_or_other k i) [
      | inl ek ↦ ek ∙ sym ej
      | inr nk ↦
          (let here : (marked i f d j).fid ≡ f =
              ap (λ (x : ℕ). (marked i f d x).fid) ej ∙ marked-here in
            absurd (fresh (rw here at live) k (sym (marked-fid k nk) ∙ e ∙ here)))
    ]
    | inr nj ↦ elim (same_or_other k i) [
      | inl ek ↦
          (let here : (marked i f d k).fid ≡ f =
              ap (λ (x : ℕ). (marked i f d x).fid) ek ∙ marked-here in
            let there : (d.slots j).fid ≡ f = sym (marked-fid j nj) ∙ sym e ∙ here in
            absurd (fresh (rw (sym e ∙ here) at live) j there))
      | inr nk ↦ other_only j k nj nk live e
    ]
  ]

  path_here :
      (IsLive f → OnPath f d.slots i)
      → (j : ℕ) → j ≡ i
      → IsLive (marked i f d j).fid
      → OnPath (marked i f d j).fid (marked i f d) j
  path_here path j e live =
      let here : (marked i f d j).fid ≡ f = ap (λ (x : ℕ). (marked i f d x).fid) e ∙ marked-here in
      rw (here, e)
        (OnPath-StaysFilled f i d.slots (marked i f d)
          (set_slot-StaysFilled i (record { fid = f; data_at = none }) d.slots filled)
          (path (rw here at live)))

  pub marked_files-IsTable :
      (IsLive f → OnPath f d.slots i)
      → (IsLive f → (j : ℕ) → (d.slots j).fid ≢ f)
      → IsTable marked_files
  marked_files-IsTable path fresh = record {
    on_path = λ j live. elim (same_or_other j i) [
      | inl e ↦ path_here path j e live
      | inr n ↦ other_path j n live
    ];
    only = marked_files-only fresh;
  }
