-- ===== src/Flash/Walk.antt =====
-- FidoAuth/pico-keys-sdk/src/fs/flash.c: the gap that `allocate_free_addr` takes.
use key_wallet.Base.{
  ℕ, zero, suc, ◌+◌, ◌-◌, ◌^◌, ◌≤◌, ◌<◌, ◌≡◌, ◌≢◌, ◌⊎◌, inl, inr, refl, sym, ap, true, false, ◌&&◌,
  ◌||◌, some, List, [], ◌∷◌, All, ltb, leb, ◌==◌, Bool-cases, arith,
}
use key_wallet.Bytes.{Status, ok}
use key_wallet.Flash.{Place, no_place, gap_start, link_new, is_done, place_result, allocate_at}
use key_wallet.Flash.Memory.{FlashMemory, flash_read_uintptr}
use key_wallet.Flash.Reads.{Agrees, full_size, full_size-least, flash_record_size-full}
use key_wallet.Flash.Links.{
  insert_address, IsEntry, IsLinked, IsInserted, insert_last-IsLinked, insert_before-IsLinked,
  insert_below-IsEntry,
}

pub done_cases : (s : Status) → (s ≡ ok) ⊎ (is_done s ≡ false)
done_cases ok = inl refl
done_cases e = inr refl

module _ ⦃memory : FlashMemory⦄ where
  open memory use {Mem, read_byte}

  -- A record keeps what follows its links.
  abbrev pub IsKept : Mem → Mem → ℕ → Type 0
  IsKept m n b = Agrees (b + 8) (b + full_size b m) m n

  lower-IsKept :
      (m n : Mem) (start base addr next b : ℕ) (bs : List ℕ)
      → IsLinked m start b bs
      → IsInserted m n base addr next
      → 0 < next
      → b ≤ next
      → All (λ c. IsKept m n c) bs
  lower-IsKept m n start base addr next b [] l i p u = tt
  lower-IsKept m n start base addr next b (c ∷ bs) l i p u = (
    λ a lo hi. i.lower a p (omega (arith, hi, l.0.below, u)),
    lower-IsKept m n start base addr next c bs l.1 i p (omega (arith, l.0.below, u)),
  )

  -- The gap that was taken, and what the links become once it is linked.
  pub record IsTaken (m : Mem) (start real base : ℕ) (bs : List ℕ) (place : Place) (after : Mem)
      : Type 0 where
    pub next : ℕ
    pub fits : place.address + real ≡ place.publish_at
    pub above : start ≤ place.address
    pub under : place.publish_at ≤ base
    pub next_below : 0 < next → next + full_size next m ≤ place.address
    pub wrote : link_new place.address place.publish_at next m ≡ (ok, after)
    pub inserts :
        (n : Mem)
        → IsInserted m n place.publish_at place.address next
        → IsLinked n start base (insert_address place.address bs)
    pub keeps :
        (n : Mem) → IsInserted m n place.publish_at place.address next → All (λ b. IsKept m n b) bs

  place_result-cases :
      (addr base : ℕ) (done : Status × Mem) (place : Place) (after : Mem)
      → place_result addr base done ≡ (place, after)
      → 0 < place.address
      → (done ≡ (ok, after)) × (place ≡ record { address = addr; publish_at = base })
  place_result-cases addr base (s, m) place after e p = elim (done_cases s) [
    | inl fine ↦
        (let same = rw fine at e in
          let kept : m ≡ after = ap (λ (r : Place × Mem). r.1) same in
          (rw (fine, kept) refl, sym (ap (λ (r : Place × Mem). r.0) same)))
    | inr bad ↦ absurd (omega (arith, ap (λ (r : Place × Mem). r.0.address) (rw bad at e), p))
  ]

  pub gap_start-entry :
      (m : Mem) (start base b : ℕ)
      → IsEntry m start base b
      → base < 2 ^ 32
      → gap_start start base b m ≡ some (b + full_size b m)
  unfolding gap_start
  gap_start-entry m start base b e w =
      let least = full_size-least b m in
      let size = flash_record_size-full b m (omega (arith, e.below, w)) in
      let some_next : (b == 0) ≡ false = ground (arith, e.positive) in
      let lower : leb base b ≡ false = ground (arith, e.below, least) in
      let room : ltb (base - b) (full_size b m) ≡ false = ground (arith, e.below) in
      rw (size, some_next, lower, room) refl

  -- A round that returns an address took this gap, or left it to the next round.
  pub data RoundCase (rounds start real base gap : ℕ) (m : Mem) (place : Place) (after : Mem)
      : Type 0 where
    takes :
        place ≡ record { address = base - real; publish_at = base }
        → real ≤ base
        → gap ≤ base - real
        → start ≤ base - real
        → link_new (base - real) base (flash_read_uintptr base m) m ≡ (ok, after)
        → RoundCase rounds start real base gap m place after
    leaves :
        0 < flash_read_uintptr base m
        → allocate_at rounds start real (flash_read_uintptr base m) m ≡ (place, after)
        → RoundCase rounds start real base gap m place after

  no_place_absurd :
      (m : Mem) (place : Place) (after : Mem)
      → ◌≡◌ {A = Place × Mem} (no_place, m) (place, after)
      → 0 < place.address
      → place ≢ place
  no_place_absurd m place after e p =
      absurd (omega (arith, ap (λ (r : Place × Mem). r.0.address) e, p))

  pub round-cases :
      (rounds start real base gap : ℕ) (m : Mem) (place : Place) (after : Mem)
      → gap_start start base (flash_read_uintptr base m) m ≡ some gap
      → allocate_at (suc rounds) start real base m ≡ (place, after)
      → 0 < place.address
      → RoundCase rounds start real base gap m place after
  unfolding allocate_at
  round-cases rounds start real base gap m place after g e p =
      elim (Bool-cases (ltb base start || ltb base real)) [
        | inl low ↦ absurd (no_place_absurd m place after (rw low at e) p refl)
        | inr high ↦ elim (Bool-cases (leb gap (base - real) && leb start (base - real))) [
          | inl room ↦
              (let taken =
                  place_result-cases (base - real) base
                    (link_new (base - real) base (flash_read_uintptr base m) m) place after
                    (rw (high, g, room) at e) p in
                takes taken.1 (ground (arith, high)) (ground (arith, room)) (ground (arith, room))
                  taken.0)
          | inr small ↦ elim (Bool-cases (flash_read_uintptr base m == 0)) [
            | inl last ↦
                absurd (no_place_absurd m place after (rw (high, g, small, last) at e) p refl)
            | inr more ↦ leaves (ground (arith, more)) (rw (high, g, small, more) at e)
          ]
        ]
      ]

  pub gap_start-last : (start base : ℕ) (m : Mem) → gap_start start base 0 m ≡ some start
  unfolding gap_start
  gap_start-last start base m = refl

  last-IsTaken :
      (start real base : ℕ) (m : Mem) (place : Place) (after : Mem)
      → place ≡ record { address = base - real; publish_at = base }
      → real ≤ base
      → start ≤ base - real
      → link_new (base - real) base 0 m ≡ (ok, after)
      → 0 < place.address
      → IsTaken m start real base [] place after
  unfolding insert_address
  last-IsTaken start real base m place after s fits above wrote p = rw s (record {
    next = 0;
    fits = omega (arith, fits);
    above = above;
    under = omega arith;
    next_below = λ h. absurd (omega (arith, h));
    wrote = wrote;
    inserts = λ n i. insert_last-IsLinked m n start base (base - real) i (rw s at p) above;
    keeps = λ n i. tt;
  })

  before-IsTaken :
      (start real base b : ℕ) (bs : List ℕ) (m : Mem) (place : Place) (after : Mem)
      → IsLinked m start base (b ∷ bs)
      → place ≡ record { address = base - real; publish_at = base }
      → real ≤ base
      → b + full_size b m ≤ base - real
      → start ≤ base - real
      → link_new (base - real) base b m ≡ (ok, after)
      → 0 < place.address
      → IsTaken m start real base (b ∷ bs) place after
  unfolding insert_address
  before-IsTaken start real base b bs m place after l s fits gap above wrote p =
      let least = full_size-least b m in
      let lower : ltb b (base - real) ≡ true = ground (arith, gap, least) in
      rw s (record {
        next = b;
        fits = omega (arith, fits);
        above = above;
        under = omega arith;
        next_below = λ h. gap;
        wrote = wrote;
        inserts = λ n i.
            rw lower
              (insert_before-IsLinked m n start base (base - real) b bs l i (rw s at p) above gap);
        keeps = λ n i. (
          λ a lo hi. i.between a lo (omega (arith, hi, gap)),
          lower-IsKept m n start base (base - real) b b bs l.1 i l.0.positive (omega arith),
        );
      })

  below-IsTaken :
      (start real base b : ℕ) (bs : List ℕ) (m : Mem) (place : Place) (after : Mem)
      → IsEntry m start base b
      → 0 < real
      → IsTaken m start real b bs place after
      → IsTaken m start real base (b ∷ bs) place after
  unfolding insert_address
  below-IsTaken start real base b bs m place after e r t =
      let higher : ltb b place.address ≡ false = ground (arith, t.fits, t.under, r) in
      record {
        next = t.next;
        fits = t.fits;
        above = t.above;
        under = omega (arith, t.under, e.below);
        next_below = t.next_below;
        wrote = t.wrote;
        inserts = λ n i. rw higher (
          insert_below-IsEntry m n start base b place.publish_at place.address t.next e i t.under,
          t.inserts n i,
        );
        keeps = λ n i. (λ a lo hi. i.higher a (omega (arith, lo, t.under)), t.keeps n i);
      }

  -- The walk over the records of a pool.
  pub allocate_at-IsTaken :
      (rounds start real base : ℕ) (bs : List ℕ) (m : Mem) (place : Place) (after : Mem)
      → IsLinked m start base bs
      → base < 2 ^ 32
      → 0 < real
      → allocate_at rounds start real base m ≡ (place, after)
      → 0 < place.address
      → IsTaken m start real base bs place after
  unfolding allocate_at
  allocate_at-IsTaken zero start real base bs m place after l w r e p =
      absurd (no_place_absurd m place after e p refl)
  allocate_at-IsTaken (suc rounds) start real base [] m place after l w r e p =
      let g : gap_start start base (flash_read_uintptr base m) m ≡ some start =
        rw l (gap_start-last start base m) in
      elim (round-cases rounds start real base start m place after g e p) [
        | takes s fits gap above wrote ↦
            last-IsTaken start real base m place after s fits above (rw l at wrote) p
        | leaves more e ↦ absurd (omega (arith, l, more))
      ]
  allocate_at-IsTaken (suc rounds) start real base (b ∷ bs) m place after l w r e p =
      let g : gap_start start base (flash_read_uintptr base m) m ≡ some (b + full_size b m) =
        rw l.0.link (gap_start-entry m start base b l.0 w) in
      elim (round-cases rounds start real base (b + full_size b m) m place after g e p) [
        | takes s fits gap above wrote ↦
            before-IsTaken start real base b bs m place after l s fits gap above
              (rw l.0.link at wrote) p
        | leaves more e ↦
            (let least = full_size-least b m in
              let rest =
                allocate_at-IsTaken rounds start real b bs m place after l.1
                  (omega (arith, l.0.below, w, least)) r (rw l.0.link at e) p in
              below-IsTaken start real base b bs m place after l.0 r rest)
      ]
