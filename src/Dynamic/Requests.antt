-- ===== src/Dynamic/Requests.antt =====
-- FidoAuth/pico-keys-sdk/src/fs/file.c: sequences of operations on the dynamic files.
use key_wallet.Base.{
  ℕ, ◌<◌, ◌≡◌, ◌≢◌, inl, inr, refl, sym, ap, ◌∙◌, Option, none, some, Option-cases, arith,
}
use key_wallet.Dynamic.{
  Slot, DynamicFiles, dynamic_file_slots, set_slot, search_dynamic_file, find_dynamic_slot,
  occupy_slot, file_new, link_data, scan_file,
}
use key_wallet.Dynamic.Path.{IsLive, some_index}
use key_wallet.Dynamic.Probes.{search_dynamic_file-lt, find_dynamic_slot-lt}
use key_wallet.Dynamic.Count.{live, live_count-set_slot}
use key_wallet.Dynamic.Table.{
  OnPath-StaysFilled, IsTable, search-fid, set_slot-same, set_slot-other, same_or_other,
}
use key_wallet.Dynamic.Files.{IsSound, was_there, refused, occupied, new_case, file_new-IsSound}
use key_wallet.Dynamic.View.{lookup, lookup-was_there, lookup-set_slot, lookup-none, new_other}

-- The table with another address in a slot.
abbrev linked : ℕ → ℕ → DynamicFiles → ℕ → Slot
linked i a d = set_slot i (record { fid = (d.slots i).fid; data_at = some a }) d.slots

linked-fid : (i a j : ℕ) (d : DynamicFiles) → (linked i a d j).fid ≡ (d.slots j).fid
linked-fid i a j d = elim (same_or_other j i) [
  | inl here ↦
      ap (λ (k : ℕ). (linked i a d k).fid) here
      ∙ ap (λ (s : Slot). s.fid)
          (set_slot-same i (record { fid = (d.slots i).fid; data_at = some a }) d.slots)
      ∙ ap (λ (k : ℕ). (d.slots k).fid) (sym here)
  | inr other ↦
      ap (λ (s : Slot). s.fid)
        (set_slot-other i j (record { fid = (d.slots i).fid; data_at = some a }) d.slots other)
]

linked-IsTable :
    (i a : ℕ) (d : DynamicFiles)
    → IsTable d
    → IsTable (record { slots = linked i a d; count = d.count })
linked-IsTable i a d t = record {
  on_path = λ j h.
      let e = linked-fid i a j d in
      rw e (
        OnPath-StaysFilled (d.slots j).fid j d.slots (linked i a d)
          (λ k filled. rw (linked-fid i a k d) filled) (t.on_path j (rw e at h)));
  only = λ j k h e.
      t.only j k (rw (linked-fid i a j d) at h) (sym (linked-fid i a k d) ∙ e ∙ linked-fid i a j d);
}

linked-IsSound :
    (i a : ℕ) (d : DynamicFiles)
    → IsSound d
    → i < dynamic_file_slots
    → IsSound (record { slots = linked i a d; count = d.count })
unfolding live
linked-IsSound i a d s l =
    let counts =
      live_count-set_slot dynamic_file_slots i (record { fid = (d.slots i).fid; data_at = some a })
        d.slots l in
    record {
      table = linked-IsTable i a d s.table;
      counted = omega (arith, counts, s.counted);
      bounded = s.bounded;
    }

occupied-fid :
    (f i j : ℕ) (d : DynamicFiles)
    → (occupy_slot f (some j) d).0 ≡ some i
    → find_dynamic_slot f d ≡ some j
    → (i < dynamic_file_slots) × (((occupy_slot f (some j) d).1.slots i).fid ≡ f)
unfolding occupy_slot
occupied-fid f i j d e place =
    let same : j ≡ i = some_index e in
    let new : Slot = record { fid = f; data_at = none } in
    (
      find_dynamic_slot-lt f i d (place ∙ ap some same),
      ap (λ (k : ℕ). (set_slot j new d.slots k).fid) (sym same)
          ∙ ap (λ (s : Slot). s.fid) (set_slot-same j new d.slots),
    )

-- What `file_new` returns is a slot of the table with the identifier.
pub file_new-fid :
    (f i : ℕ) (d : DynamicFiles)
    → IsSound d
    → (file_new f d).0 ≡ some i
    → (i < dynamic_file_slots) × (((file_new f d).1.slots i).fid ≡ f)
file_new-fid f i d s e = elim (new_case f d s) [
  | was_there j there r ↦
      (let same : j ≡ i = some_index (rw r at e) in
        let at_i : search_dynamic_file f d ≡ some i = rw same at there in
        (search_dynamic_file-lt f i d at_i, rw r (search-fid d f i at_i)))
  | refused absent b r ↦ absurd (ground (arith, rw r at e))
  | occupied j absent live room place r ↦ rw r (occupied-fid f i j d (rw r at e) place)
]

link_data-IsSound :
    (f a : ℕ) (p : Option ℕ) (d : DynamicFiles)
    → IsSound d
    → ((i : ℕ) → p ≡ some i → (i < dynamic_file_slots) × ((d.slots i).fid ≡ f))
    → IsSound (link_data p a d)
unfolding link_data
link_data-IsSound f a none d s h = s
link_data-IsSound f a (some i) d s h = linked-IsSound i a d s (h i refl).0

pub scan_file-IsSound : (f a : ℕ) (d : DynamicFiles) → IsSound d → IsSound (scan_file f a d)
unfolding scan_file
scan_file-IsSound f a d s =
    link_data-IsSound f a (file_new f d).0 (file_new f d).1 (file_new-IsSound f d s)
      (λ i e. file_new-fid f i d s e)

-- What is shown of a file whose data is linked.
abbrev pub relinked : Option (Option ℕ) → ℕ → Option (Option ℕ)
relinked none a = none
relinked (some old) a = some (some a)

link_same :
    (f a i : ℕ) (d : DynamicFiles)
    → IsSound d
    → IsLive f
    → i < dynamic_file_slots
    → (d.slots i).fid ≡ f
    → lookup f (link_data (some i) a d) ≡ some (some a)
unfolding link_data
link_same f a i d s h l e =
    let new : Slot = record { fid = (d.slots i).fid; data_at = some a } in
    let here = set_slot-same i new d.slots in
    lookup-was_there f i (record { slots = linked i a d; count = d.count })
      (linked-IsTable i a d s.table) h (ap (λ (s : Slot). s.fid) here ∙ e)
    ∙ ap (λ (s : Slot). some s.data_at) here

link_other :
    (f g a : ℕ) (p : Option ℕ) (d : DynamicFiles)
    → IsSound d
    → IsLive g
    → g ≢ f
    → ((i : ℕ) → p ≡ some i → (i < dynamic_file_slots) × ((d.slots i).fid ≡ f))
    → lookup g (link_data p a d) ≡ lookup g d
unfolding link_data
link_other f g a none d s h n held = refl
link_other f g a (some i) d s h n held =
    let e = (held i refl).1 in
    lookup-set_slot g i d.count (record { fid = (d.slots i).fid; data_at = some a }) d s.table
      (linked-IsTable i a d s.table) h (λ e'. n (sym e' ∙ e)) (λ e'. n (sym e' ∙ e))

new_none :
    (f : ℕ) (d : DynamicFiles)
    → IsSound d
    → (file_new f d).0 ≡ none
    → lookup f (file_new f d).1 ≡ none
unfolding occupy_slot
new_none f d s e = elim (new_case f d s) [
  | was_there j there r ↦ absurd (ground (arith, rw r at e))
  | refused absent b r ↦ rw r (lookup-none f d absent)
  | occupied j absent live room place r ↦ absurd (ground (arith, rw r at e))
]

link_none : (f a : ℕ) (d : DynamicFiles) → lookup f d ≡ none → lookup f (link_data none a d) ≡ none
unfolding link_data
link_none f a d e = e

pub scan_same :
    (f a : ℕ) (d : DynamicFiles)
    → IsSound d
    → IsLive f
    → lookup f (scan_file f a d) ≡ relinked (lookup f (file_new f d).1) a
unfolding scan_file
scan_same f a d s h = elim (Option-cases (file_new f d).0) [
  | inl e ↦ (let shown = new_none f d s e in rw (e, shown) (link_none f a (file_new f d).1 shown))
  | inr there ↦
      (let place = file_new-fid f there.0 d s there.1 in
        let after = file_new-IsSound f d s in
        let shown = lookup-was_there f there.0 (file_new f d).1 after.table h place.1 in
        rw (there.1, shown) (link_same f a there.0 (file_new f d).1 after h place.0 place.1))
]

pub scan_other :
    (f g a : ℕ) (d : DynamicFiles)
    → IsSound d
    → IsLive g
    → g ≢ f
    → lookup g (scan_file f a d) ≡ lookup g d
unfolding scan_file
scan_other f g a d s h n =
    link_other f g a (file_new f d).0 (file_new f d).1 (file_new-IsSound f d s) h n
      (λ i e. file_new-fid f i d s e)
    ∙ new_other f g d s h n
