-- ===== src/Dynamic/Files.antt =====
-- FidoAuth/pico-keys-sdk/src/fs/file.c: dynamic files that are created and deleted.
use key_wallet.Base.{
  ℕ, ◌+◌, ◌%◌, ◌^◌, ◌≤◌, ◌<◌, ◌≡◌, ◌≢◌, inl, inr, refl, sym, ap, ◌∙◌, Option, none, some, leb, ◌==◌,
  Bool-cases, Option-cases, arith, ==_iff,
}
use key_wallet.Bytes.{ok, file_not_found}
use key_wallet.Dynamic.{
  Slot, DynamicFiles, dynamic_file_slots, max_dynamic_files, fid_empty, fid_deleted, empty_slot,
  cleared_files, set_slot, search_dynamic_file, find_dynamic_slot, occupy_slot, new_dynamic,
  file_new, delete_dynamic_file,
}
use key_wallet.Dynamic.Path.{IsLive, some_index}
use key_wallet.Dynamic.Probes.{find_dynamic_slot-lt, find_dynamic_slot-none}
use key_wallet.Dynamic.Count.{
  live, live_count, live-free, live-IsLive, live_count-set_slot, live_count-full, live_count-none,
}
use key_wallet.Dynamic.Table.{IsTable, marked_files-IsTable, search-IsTable, find-OnPath}

-- Every file is found by its identifier, and the counter is the number of files.
pub record IsSound (d : DynamicFiles) : Type 0 where
  pub table : IsTable d
  pub counted : d.count ≡ live_count dynamic_file_slots d.slots
  pub bounded : d.count ≤ max_dynamic_files

pub cleared_files-IsSound : IsSound cleared_files
unfolding cleared_files
cleared_files-IsSound = record {
  table = record { on_path = λ i h. absurd (h.0 refl); only = λ i j h e. absurd (h.0 refl) };
  counted = sym (live_count-none dynamic_file_slots empty_slot (inl refl));
  bounded = omega arith;
}

-- Where no slot has the identifier, the search finds none, and back.
pub search-none :
    (d : DynamicFiles) (f : ℕ)
    → IsTable d
    → IsLive f
    → search_dynamic_file f d ≡ none
    → (j : ℕ) → (d.slots j).fid ≢ f
search-none d f t h e j same =
    let was_there = search-IsTable d j t (rw same h) in
    absurd (ground (arith, rw same at was_there, e))

occupied-IsSound :
    (f i : ℕ) (d : DynamicFiles)
    → IsSound d
    → IsLive f
    → search_dynamic_file f d ≡ none
    → d.count < max_dynamic_files
    → find_dynamic_slot f d ≡ some i
    → IsSound (occupy_slot f (some i) d).1
unfolding occupy_slot
occupied-IsSound f i d s h absent room was_there =
    let place = find-OnPath d f i was_there in
    let new : Slot = record { fid = f; data_at = none } in
    let counts =
      live_count-set_slot dynamic_file_slots i new d.slots (find_dynamic_slot-lt f i d was_there) in
    record {
      table =
          marked_files-IsTable d s.table i f ((d.count + 1) % 2 ^ 16) h.0 (λ l. place.1)
            (λ l j. search-none d f s.table h absent j);
      counted =
          omega (arith, counts, live-free (d.slots i) place.0, live-IsLive new h, s.counted, room);
      bounded = omega (arith, room);
    }

-- The table without the file of the slot.
abbrev pub emptied : ℕ → DynamicFiles → DynamicFiles
emptied i d = record {
  slots = set_slot i (record { fid = fid_deleted; data_at = none }) d.slots;
  count = (d.count + 0xffff) % 2 ^ 16;
}

-- The three ends of `file_new`.
pub data NewCase (f : ℕ) (d : DynamicFiles) : Type 0 where
  was_there : (i : ℕ) → search_dynamic_file f d ≡ some i → file_new f d ≡ (some i, d) → NewCase f d
  refused :
      search_dynamic_file f d ≡ none
      → (IsLive f → max_dynamic_files ≤ d.count)
      → file_new f d ≡ (none, d)
      → NewCase f d
  occupied :
      (i : ℕ)
      → search_dynamic_file f d ≡ none
      → IsLive f
      → d.count < max_dynamic_files
      → find_dynamic_slot f d ≡ some i
      → file_new f d ≡ occupy_slot f (some i) d
      → NewCase f d

-- A table with less than its bound of files has a free slot.
find-room :
    (f : ℕ) (d : DynamicFiles)
    → IsSound d
    → d.count < max_dynamic_files
    → find_dynamic_slot f d ≢ none
find-room f d s room e =
    let full =
      live_count-full dynamic_file_slots d.slots (λ i l. find_dynamic_slot-none f i d e l) in
    omega (arith, full, s.counted, room)

-- Nothing has the identifier.
absent_case : (f : ℕ) (d : DynamicFiles) → IsSound d → search_dynamic_file f d ≡ none → NewCase f d
unfolding file_new new_dynamic
absent_case f d s absent = elim (Bool-cases (f == fid_empty)) [
  | inl empty ↦
      refused absent (λ live. absurd (live.0 ((==_iff f fid_empty).0 empty)))
        (rw (absent, empty) refl)
  | inr filled ↦ elim (Bool-cases (f == fid_deleted)) [
    | inl gone ↦
        refused absent (λ live. absurd (live.1 ((==_iff f fid_deleted).0 gone)))
          (rw (absent, filled, gone) refl)
    | inr kept ↦ elim (Bool-cases (leb max_dynamic_files d.count)) [
      | inl full ↦
          refused absent (λ live. ground (arith, full)) (rw (absent, filled, kept, full) refl)
      | inr room ↦ elim (Option-cases (find_dynamic_slot f d)) [
        | inl e ↦ absurd (find-room f d s (ground (arith, room)) e)
        | inr place ↦
            occupied place.0 absent (ground (arith, filled), ground (arith, kept))
              (ground (arith, room)) place.1 (rw (absent, filled, kept, room, place.1) refl)
      ]
    ]
  ]
]

pub new_case : (f : ℕ) (d : DynamicFiles) → IsSound d → NewCase f d
unfolding file_new new_dynamic
new_case f d s = elim (Option-cases (search_dynamic_file f d)) [
  | inl absent ↦ absent_case f d s absent
  | inr there ↦ was_there there.0 there.1 (rw there.1 refl)
]

pub file_new-IsSound : (f : ℕ) (d : DynamicFiles) → IsSound d → IsSound (file_new f d).1
file_new-IsSound f d s = elim (new_case f d s) [
  | was_there i e r ↦ rw r s
  | refused e h r ↦ rw r s
  | occupied i absent live room place r ↦ rw r (occupied-IsSound f i d s live absent room place)
]

-- The two ends of `delete_dynamic_file`.
pub data DeleteCase (p : Option ℕ) (d : DynamicFiles) : Type 0 where
  missing :
      ((i : ℕ) → p ≡ some i → i < dynamic_file_slots → ¬ IsLive (d.slots i).fid)
      → delete_dynamic_file p d ≡ (file_not_found, d)
      → DeleteCase p d
  deleted :
      (i : ℕ)
      → p ≡ some i
      → i < dynamic_file_slots
      → IsLive (d.slots i).fid
      → delete_dynamic_file p d ≡ (ok, emptied i d)
      → DeleteCase p d

pub delete_case : (p : Option ℕ) (d : DynamicFiles) → DeleteCase p d
unfolding delete_dynamic_file
delete_case none d = missing (λ i e l h. absurd (ground (arith, e))) refl
delete_case (some i) d = elim (Bool-cases (leb dynamic_file_slots i)) [
  | inl outside ↦
      missing (λ j e l h. absurd (ground (arith, outside, l, some_index e))) (rw outside refl)
  | inr inside ↦ elim (Bool-cases ((d.slots i).fid == fid_empty)) [
    | inl empty ↦
        missing
          (λ j e l h.
            (h.0 (
              ap (λ (k : ℕ). (d.slots k).fid) (sym (some_index e))
              ∙ (==_iff (d.slots i).fid fid_empty).0 empty)))
          (rw (inside, empty) refl)
    | inr filled ↦ elim (Bool-cases ((d.slots i).fid == fid_deleted)) [
      | inl gone ↦
          missing
            (λ j e l h.
              (h.1 (
                ap (λ (k : ℕ). (d.slots k).fid) (sym (some_index e))
                ∙ (==_iff (d.slots i).fid fid_deleted).0 gone)))
            (rw (inside, filled, gone) refl)
      | inr kept ↦
          deleted i refl (ground (arith, inside)) (ground (arith, filled), ground (arith, kept))
            (rw (inside, filled, kept) refl)
    ]
  ]
]

pub count-some :
    (i : ℕ) (d : DynamicFiles)
    → IsSound d
    → i < dynamic_file_slots
    → IsLive (d.slots i).fid
    → 0 < d.count
count-some i d s l h =
    let gone : Slot = record { fid = fid_deleted; data_at = none } in
    let counts = live_count-set_slot dynamic_file_slots i gone d.slots l in
    omega (arith, counts, live-free gone (inr refl), live-IsLive (d.slots i) h, s.counted)

emptied-IsSound :
    (i : ℕ) (d : DynamicFiles)
    → IsSound d
    → i < dynamic_file_slots
    → IsLive (d.slots i).fid
    → IsSound (emptied i d)
emptied-IsSound i d s l h =
    let gone : Slot = record { fid = fid_deleted; data_at = none } in
    let counts = live_count-set_slot dynamic_file_slots i gone d.slots l in
    record {
      table =
          marked_files-IsTable d s.table i fid_deleted ((d.count + 0xffff) % 2 ^ 16) (omega arith)
            (λ h. absurd (h.1 refl)) (λ h. absurd (h.1 refl));
      counted = omega (
        arith,
        counts,
        live-free gone (inr refl),
        live-IsLive (d.slots i) h,
        s.counted,
        s.bounded,
      );
      bounded = omega (arith, s.bounded, count-some i d s l h);
    }

pub delete_dynamic_file-IsSound :
    (p : Option ℕ) (d : DynamicFiles) → IsSound d → IsSound (delete_dynamic_file p d).1
delete_dynamic_file-IsSound p d s = elim (delete_case p d) [
  | missing h r ↦ rw r s
  | deleted i e l live r ↦ rw r (emptied-IsSound i d s l live)
]
