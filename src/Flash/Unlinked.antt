-- ===== src/Flash/Unlinked.antt =====
-- FidoAuth/pico-keys-sdk/src/fs/flash.c: a record that is taken out of the list of its pool.
use key_wallet.Base.{
  ℕ, ◌+◌, ◌≤◌, ◌<◌, ◌≡◌, ◌≢◌, ◌⊎◌, inl, inr, refl, sym, false, List, [], ◌∷◌, All, ◌==◌,
  if◌then◌else◌, Bool-cases, arith, ==_iff,
}
use key_wallet.Flash.Memory.{FlashMemory, flash_read_uintptr}
use key_wallet.Flash.Reads.{Agrees, full_size, full_size-least, full_size-Agrees}
use key_wallet.Flash.Links.{IsEntry, IsLinked, IsLinked-Agrees, IsEntry-Agrees}
use key_wallet.Flash.Walk.{IsKept}

unfoldable pub remove_address : ℕ → List ℕ → List ℕ
remove_address a [] = []
remove_address a (b ∷ bs) = if b == a then bs else b ∷ remove_address a bs

abbrev pub HasAddress : ℕ → List ℕ → Type 0
HasAddress a [] = ◌≡◌ {A = ℕ} 0 1
HasAddress a (b ∷ bs) = (b ≡ a) ⊎ HasAddress a bs

module _ ⦃memory : FlashMemory⦄ where
  open memory use {Mem, read_byte}

  -- Between two flashes the record at `addr`, between `top` and `next`, was unlinked.
  pub record IsRemoved (m n : Mem) (top addr next : ℕ) : Type 0 where
    pub link : flash_read_uintptr top n ≡ next
    pub back : 0 < next → flash_read_uintptr (next + 4) n ≡ top
    pub higher : (a : ℕ) → top + 4 ≤ a → read_byte a n ≡ read_byte a m
    pub lower : (a : ℕ) → 0 < next → a < next + 4 → read_byte a n ≡ read_byte a m
    pub between : Agrees (next + 8) addr m n

  -- Where a record of the list stands, and what is left of the list without it.
  pub record IsAt (m : Mem) (start base : ℕ) (bs : List ℕ) (addr : ℕ) : Type 0 where
    pub top : ℕ
    pub next : ℕ
    pub entry : IsEntry m start top addr
    pub under : top ≤ base
    pub next_link : flash_read_uintptr addr m ≡ next
    pub next_below : 0 < next → next + full_size next m ≤ addr
    pub removes :
        (n : Mem)
        → IsRemoved m n top addr next
        → IsLinked n start base (remove_address addr bs)
          × All (λ b. IsKept m n b) (remove_address addr bs)

  lower_same-IsKept :
      (m n : Mem) (start top addr next b : ℕ) (bs : List ℕ)
      → IsLinked m start b bs
      → IsRemoved m n top addr next
      → 0 < next
      → b ≤ next
      → All (λ c. IsKept m n c) bs
  lower_same-IsKept m n start top addr next b [] l i p u = tt
  lower_same-IsKept m n start top addr next b (c ∷ bs) l i p u = (
    λ a lo hi. i.lower a p (omega (arith, hi, l.0.below, u)),
    lower_same-IsKept m n start top addr next c bs l.1 i p (omega (arith, l.0.below, u)),
  )

  -- The last record of the list.
  last-IsAt :
      (m : Mem) (start base addr : ℕ)
      → IsLinked m start base (addr ∷ [])
      → IsAt m start base (addr ∷ []) addr
  unfolding remove_address
  last-IsAt m start base addr l = record {
    top = base;
    next = 0;
    entry = l.0;
    under = omega arith;
    next_link = l.1;
    next_below = λ p. absurd (omega (arith, p));
    removes = λ n i. rw ((==_iff addr addr).1 refl) (i.link, tt);
  }

  first-IsAt :
      (m : Mem) (start base addr b : ℕ) (bs : List ℕ)
      → IsLinked m start base (addr ∷ b ∷ bs)
      → IsAt m start base (addr ∷ b ∷ bs) addr
  unfolding remove_address
  first-IsAt m start base addr b bs l = record {
    top = base;
    next = b;
    entry = l.0;
    under = omega arith;
    next_link = l.1.0.link;
    next_below = λ p. l.1.0.below;
    removes = λ n i. rw ((==_iff addr addr).1 refl) (
      (follows n i, IsLinked-Agrees m n start b bs l.1.1 (λ a u. i.lower a l.1.0.positive u)),
      (
        λ a lo hi. i.between a lo (omega (arith, hi, l.1.0.below)),
        lower_same-IsKept m n start base addr b b bs l.1.1 i l.1.0.positive (omega arith),
      ),
    );
  }
    where
      follows : (n : Mem) → IsRemoved m n base addr b → IsEntry n start base b
      follows n i =
          let same =
            full_size-Agrees b m n
              (λ a lo hi. i.between a (omega (arith, lo)) (omega (arith, hi, l.1.0.below))) in
          record {
            link = i.link;
            back = i.back l.1.0.positive;
            positive = l.1.0.positive;
            above = l.1.0.above;
            below = omega (arith, same, l.1.0.below, l.0.below);
          }

  later-IsAt :
      (m : Mem) (start base addr b : ℕ) (bs : List ℕ)
      → IsEntry m start base b
      → b ≢ addr
      → IsAt m start b bs addr
      → IsAt m start base (b ∷ bs) addr
  unfolding remove_address
  later-IsAt m start base addr b bs e d t =
      let other : (b == addr) ≡ false = ground (arith, d) in
      let least = full_size-least b m in
      record {
        top = t.top;
        next = t.next;
        entry = t.entry;
        under = omega (arith, t.under, e.below);
        next_link = t.next_link;
        next_below = t.next_below;
        removes = λ n i.
            (let rest = t.removes n i in
              rw other (
                (
                  IsEntry-Agrees m n start base b e
                      (λ a lo hi. i.higher a (omega (arith, lo, e.below, least, t.under)))
                      (λ a lo hi. i.higher a (omega (arith, lo, t.under))),
                  rest.0,
                ),
                (λ a lo hi. i.higher a (omega (arith, lo, t.under)), rest.1),
              ));
      }

  here-IsAt :
      (m : Mem) (start base addr : ℕ) (bs : List ℕ)
      → IsLinked m start base (addr ∷ bs)
      → IsAt m start base (addr ∷ bs) addr
  here-IsAt m start base addr [] l = last-IsAt m start base addr l
  here-IsAt m start base addr (b ∷ bs) l = first-IsAt m start base addr b bs l

  pub HasAddress-IsAt :
      (m : Mem) (start base addr : ℕ) (bs : List ℕ)
      → IsLinked m start base bs
      → HasAddress addr bs
      → IsAt m start base bs addr
  HasAddress-IsAt m start base addr [] l h = absurd (omega (arith, h))
  HasAddress-IsAt m start base addr (b ∷ bs) l h = elim (Bool-cases (b == addr)) [
    | inl same ↦ (let e = (==_iff b addr).0 same in rw (sym e) (here-IsAt m start base b bs l))
    | inr differs ↦ elim h [
      | inl e ↦ absurd (ground (arith, differs, e))
      | inr t ↦
          later-IsAt m start base addr b bs l.0 (ground (arith, differs))
            (HasAddress-IsAt m start b addr bs l.1 t)
    ]
  ]
