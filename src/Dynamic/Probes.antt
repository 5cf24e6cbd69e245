-- ===== src/Dynamic/Probes.antt =====
-- FidoAuth/pico-keys-sdk/src/fs/file.c: the probes of an identifier meet every slot of the table.
use key_wallet.Base.{
  ℕ, zero, suc, ◌+◌, ◌-◌, ◌*◌, ◌/◌, ◌%◌, ◌≤◌, ◌<◌, ◌≡◌, inl, inr, refl, sym, ap, ◌∙◌, Bool, true,
  ◌&&◌, Option, none, some, ◌==◌, if◌then◌else◌, Bool-cases, arith, ==_iff,
}
use key_wallet.Dynamic.{
  Slot, dynamic_file_slots, fid_empty, fid_deleted, next_slot, dynamic_hash, dynamic_hash_step,
  deleted_or, note_deleted, search_from, search_dynamic_file, find_slot_from, find_dynamic_slot,
  DynamicFiles,
}
use key_wallet.Dynamic.Path.{IsLive}
use native.Mathlib.Nat.{
  mul_comm, mul_left_comm, mul-add, suc-mul, mod-add-div, add-mul-mod_self_left, mod-lt,
  add-mod-mod, mod-add-mod,
}

-- Square and multiply modulo the number of slots, as many bits of the exponent as the fuel.
unfoldable power : ℕ → ℕ → ℕ → ℕ
power zero b e = 1
power (suc bits) b e =
    let rest = power bits (b * b % dynamic_file_slots) (e / 2) in
    if (e % 2) == 0 then rest else b * rest % dynamic_file_slots

-- By Fermat, since the number of slots is a prime.
unfoldable inverse : ℕ → ℕ
inverse step = power 12 step 2307

unfoldable inverses_below : ℕ → Bool
inverses_below zero = true
inverses_below (suc n) = ((suc n * inverse (suc n) % dynamic_file_slots) == 1) && inverses_below n

all_inverses : inverses_below 2308 ≡ true
unfolding inverses_below inverse power
all_inverses = refl

inverses_below-lt :
    (n s : ℕ) → inverses_below n ≡ true → 0 < s → s ≤ n → s * inverse s % dynamic_file_slots ≡ 1
unfolding inverses_below
inverses_below-lt zero s e p l = absurd (omega arith)
inverses_below-lt (suc n) s e p l =
    elim (Bool-cases ((suc n * inverse (suc n) % dynamic_file_slots) == 1)) [
      | inl here ↦ elim (Bool-cases (s == suc n)) [
        | inl same ↦
            rw ((==_iff s (suc n)).0 same)
              ((==_iff (suc n * inverse (suc n) % dynamic_file_slots) 1).0 here)
        | inr below ↦ inverses_below-lt n s (rw here at e) p (ground (arith, below))
      ]
      | inr fails ↦ absurd (ground arith)
    ]

inverse_lem : (s : ℕ) → 0 < s → s < dynamic_file_slots → s * inverse s % dynamic_file_slots ≡ 1
inverse_lem s p l = inverses_below-lt 2308 s all_inverses p (omega arith)

mul-mod : (a b p : ℕ) → a * (b % p) % p ≡ a * b % p
mul-mod a b p =
    let split : a * b ≡ a * (b % p) + p * (a * (b / p)) =
      ap (λ (x : ℕ). a * x) (sym (mod-add-div b p))
      ∙ mul-add a (b % p) (p * (b / p))
      ∙ ap (λ (x : ℕ). a * (b % p) + x) (mul_left_comm a p (b / p)) in
    rw split (sym (add-mul-mod_self_left (a * (b % p)) p (a * (b / p))))

-- The slot of the probe `k` of a walk that starts at a slot.
unfoldable pub probe_slot : ℕ → ℕ → ℕ → ℕ
probe_slot zero slot step = slot
probe_slot (suc k) slot step = probe_slot k (next_slot slot step) step

probe_slot_lem :
    (k slot step : ℕ)
    → slot < dynamic_file_slots
    → probe_slot k slot step ≡ (slot + k * step) % dynamic_file_slots
unfolding probe_slot
probe_slot_lem zero slot step l = omega arith
probe_slot_lem (suc k) slot step l =
    probe_slot_lem k (next_slot slot step) step (mod-lt (slot + step) (omega arith))
    ∙ mod-add-mod (slot + step) dynamic_file_slots (k * step)
    ∙ ap (λ (x : ℕ). x % dynamic_file_slots) (omega (arith, suc-mul k step))

-- The probe that meets a slot.
abbrev probe_of : ℕ → ℕ → ℕ → ℕ
probe_of slot step i = (i + dynamic_file_slots - slot) * inverse step % dynamic_file_slots

times_inverse :
    (x s : ℕ)
    → 0 < s
    → s < dynamic_file_slots
    → (x * inverse s % dynamic_file_slots) * s % dynamic_file_slots ≡ x % dynamic_file_slots
times_inverse x s p l =
    let turned : s * (x * inverse s) ≡ x * (s * inverse s) = mul_left_comm s x (inverse s) in
    ap (λ (y : ℕ). y % dynamic_file_slots) (mul_comm (x * inverse s % dynamic_file_slots) s)
    ∙ mul-mod s (x * inverse s) dynamic_file_slots
    ∙ ap (λ (y : ℕ). y % dynamic_file_slots) turned
    ∙ sym (mul-mod x (s * inverse s) dynamic_file_slots)
    ∙ ap (λ (y : ℕ). x * y % dynamic_file_slots) (inverse_lem s p l)
    ∙ ap (λ (y : ℕ). y % dynamic_file_slots) (omega arith)

pub probe_slot-all :
    (slot step i : ℕ)
    → slot < dynamic_file_slots
    → 0 < step
    → step < dynamic_file_slots
    → i < dynamic_file_slots
    → (k : ℕ) × ((k < dynamic_file_slots) × (probe_slot k slot step ≡ i))
probe_slot-all slot step i ls p lt li =
    let meets : probe_slot (probe_of slot step i) slot step ≡ i =
      probe_slot_lem (probe_of slot step i) slot step ls
      ∙ sym (add-mod-mod slot (probe_of slot step i * step) dynamic_file_slots)
      ∙ ap (λ (y : ℕ). (slot + y) % dynamic_file_slots)
          (times_inverse (i + dynamic_file_slots - slot) step p lt)
      ∙ omega arith in
    (
      probe_of slot step i,
      (mod-lt ((i + dynamic_file_slots - slot) * inverse step) (omega arith), meets),
    )

find_slot_from-noted :
    (probes d slot step : ℕ) (slots : ℕ → Slot)
    → find_slot_from probes (some d) slot step slots ≡ some d
unfolding find_slot_from note_deleted
find_slot_from-noted zero d slot step slots = refl
find_slot_from-noted (suc probes) d slot step slots =
    let rest = find_slot_from-noted probes d (next_slot slot step) step slots in
    elim (Bool-cases ((slots slot).fid == fid_empty)) [
      | inl empty ↦ rw empty refl
      | inr filled ↦ rw filled rest
    ]

-- Where no slot is found, the walk went past this one.
past_slot :
    (probes slot step : ℕ) (slots : ℕ → Slot)
    → find_slot_from (suc probes) none slot step slots ≡ none
    → IsLive (slots slot).fid × (find_slot_from probes none (next_slot slot step) step slots ≡ none)
unfolding find_slot_from note_deleted
past_slot probes slot step slots e =
    let noted = find_slot_from-noted probes slot (next_slot slot step) step slots in
    elim (Bool-cases ((slots slot).fid == fid_empty)) [
      | inl empty ↦ absurd (ground arith)
      | inr filled ↦ elim (Bool-cases ((slots slot).fid == fid_deleted)) [
        | inl gone ↦ absurd (ground (arith, rw (filled, gone) at e, noted))
        | inr live ↦ ((ground (arith, filled), ground (arith, live)), rw (filled, live) at e)
      ]
    ]

-- Where no slot is found, no probe met a free one.
find_slot_from-none :
    (probes slot step : ℕ) (slots : ℕ → Slot)
    → find_slot_from probes none slot step slots ≡ none
    → (k : ℕ) → k < probes
    → IsLive (slots (probe_slot k slot step)).fid
unfolding probe_slot
find_slot_from-none zero slot step slots e k l = absurd (omega arith)
find_slot_from-none (suc probes) slot step slots e zero l = (past_slot probes slot step slots e).0
find_slot_from-none (suc probes) slot step slots e (suc k) l =
    find_slot_from-none probes (next_slot slot step) step slots
      (past_slot probes slot step slots e).1 k (omega arith)

pub find_dynamic_slot-none :
    (f i : ℕ) (d : DynamicFiles)
    → find_dynamic_slot f d ≡ none
    → i < dynamic_file_slots
    → IsLive (d.slots i).fid
unfolding find_dynamic_slot dynamic_hash dynamic_hash_step
find_dynamic_slot-none f i d e l =
    let met =
      probe_slot-all (dynamic_hash f) (dynamic_hash_step f) i (omega arith) (omega arith)
        (omega arith) l in
    let live =
      find_slot_from-none dynamic_file_slots (dynamic_hash f) (dynamic_hash_step f) d.slots e met.0
        met.1.0 in
    rw met.1.1 at live

noted_below :
    (noted : Option ℕ) (slot : ℕ) (slots : ℕ → Slot) (n : ℕ)
    → ((d : ℕ) → noted ≡ some d → d < n)
    → slot < n
    → (d : ℕ) → note_deleted noted slot slots ≡ some d
    → d < n
unfolding note_deleted
noted_below (some k) slot slots n h l d e = h d e
noted_below none slot slots n h l d e = elim (Bool-cases ((slots slot).fid == fid_deleted)) [
  | inl gone ↦ ground (arith, rw gone at e)
  | inr live ↦ absurd (ground arith)
]

-- What is found is a slot of the table.
find_slot_from-lt :
    (probes : ℕ) (noted : Option ℕ) (slot step i : ℕ) (slots : ℕ → Slot)
    → ((d : ℕ) → noted ≡ some d → d < dynamic_file_slots)
    → slot < dynamic_file_slots
    → find_slot_from probes noted slot step slots ≡ some i
    → i < dynamic_file_slots
unfolding find_slot_from
find_slot_from-lt zero noted slot step i slots h l e = h i e
find_slot_from-lt (suc probes) noted slot step i slots h l e =
    elim (Bool-cases ((slots slot).fid == fid_empty)) [
      | inl empty ↦ chosen noted h (rw empty at e)
      | inr filled ↦
          find_slot_from-lt probes (note_deleted noted slot slots) (next_slot slot step) step i
            slots (noted_below noted slot slots dynamic_file_slots h l) (omega arith)
            (rw filled at e)
    ]
  where
    chosen :
        (o : Option ℕ)
        → ((d : ℕ) → o ≡ some d → d < dynamic_file_slots)
        → some (deleted_or o slot) ≡ some i
        → i < dynamic_file_slots
    chosen none h e = ground (arith, l)
    chosen (some d) h e = h i e

pub find_dynamic_slot-lt :
    (f i : ℕ) (d : DynamicFiles) → find_dynamic_slot f d ≡ some i → i < dynamic_file_slots
unfolding find_dynamic_slot dynamic_hash
find_dynamic_slot-lt f i d e =
    find_slot_from-lt dynamic_file_slots none (dynamic_hash f) (dynamic_hash_step f) i d.slots
      (λ k n. absurd (ground (arith, n))) (omega arith) e

search_from-lt :
    (probes slot step f i : ℕ) (slots : ℕ → Slot)
    → slot < dynamic_file_slots
    → search_from probes slot step f slots ≡ some i
    → i < dynamic_file_slots
unfolding search_from
search_from-lt zero slot step f i slots l e = absurd (ground arith)
search_from-lt (suc probes) slot step f i slots l e =
    elim (Bool-cases ((slots slot).fid == fid_empty)) [
      | inl empty ↦ absurd (ground arith)
      | inr filled ↦ elim (Bool-cases ((slots slot).fid == f)) [
        | inl same ↦ ground (arith, rw (filled, same) at e)
        | inr differs ↦
            search_from-lt probes (next_slot slot step) step f i slots (omega arith)
              (rw (filled, differs) at e)
      ]
    ]

pub search_dynamic_file-lt :
    (f i : ℕ) (d : DynamicFiles) → search_dynamic_file f d ≡ some i → i < dynamic_file_slots
unfolding search_dynamic_file dynamic_hash
search_dynamic_file-lt f i d e =
    search_from-lt dynamic_file_slots (dynamic_hash f) (dynamic_hash_step f) f i d.slots
      (omega arith) e
