-- ===== src/Flash/Links.antt =====
-- FidoAuth/pico-keys-sdk/src/fs/flash.c: a pool as the list of its records, and a record that is linked
-- into it.
use key_wallet.Base.{ℕ, ◌+◌, ◌≤◌, ◌<◌, ◌≡◌, ◌∙◌, List, [], ◌∷◌, ltb, if◌then◌else◌, arith}
use key_wallet.Flash.Memory.{FlashMemory, flash_read_uintptr}
use key_wallet.Flash.Reads.{
  Agrees, read_uint32-Agrees, full_size, full_size-least, full_size-Agrees,
}

-- A new address in the list of the addresses, which goes down.
unfoldable pub insert_address : ℕ → List ℕ → List ℕ
insert_address a [] = a ∷ []
insert_address a (b ∷ bs) = if ltb b a then a ∷ b ∷ bs else b ∷ insert_address a bs

module _ ⦃memory : FlashMemory⦄ where
  open memory use {Mem, read_byte}

  -- The record at `b` is the next one below the link at `base`, links back, and ends below it.
  pub record IsEntry (m : Mem) (start base b : ℕ) : Type 0 where
    pub link : flash_read_uintptr base m ≡ b
    pub back : flash_read_uintptr (b + 4) m ≡ base
    pub positive : 0 < b
    pub above : start ≤ b
    pub below : b + full_size b m ≤ base

  abbrev pub IsLinked : Mem → ℕ → ℕ → List ℕ → Type 0
  IsLinked m start base [] = flash_read_uintptr base m ≡ 0
  IsLinked m start base (b ∷ bs) = IsEntry m start base b × IsLinked m start b bs

  pub IsEntry-Agrees :
      (m n : Mem) (start base b : ℕ)
      → IsEntry m start base b
      → Agrees base (base + 4) m n
      → Agrees (b + 4) (b + full_size b m) m n
      → IsEntry n start base b
  IsEntry-Agrees m n start base b e h k =
      let least = full_size-least b m in
      record {
        link = read_uint32-Agrees base m n h ∙ e.link;
        back = read_uint32-Agrees (b + 4) m n (λ a l u. k a l (omega (arith, u, least))) ∙ e.back;
        positive = e.positive;
        above = e.above;
        below =
            (let same = full_size-Agrees b m n (λ a l u. k a (omega (arith, l)) u) in
              omega (arith, same, e.below));
      }

  pub IsLinked-Agrees :
      (m n : Mem) (start base : ℕ) (bs : List ℕ)
      → IsLinked m start base bs
      → ((a : ℕ) → a < base + 4 → read_byte a n ≡ read_byte a m)
      → IsLinked n start base bs
  IsLinked-Agrees m n start base [] l h = read_uint32-Agrees base m n (λ a lo hi. h a hi) ∙ l
  IsLinked-Agrees m n start base (b ∷ bs) l h =
      let least = full_size-least b m in
      (
        IsEntry-Agrees m n start base b l.0 (λ a lo hi. h a hi)
            (λ a lo hi. h a (omega (arith, hi, l.0.below))),
        IsLinked-Agrees m n start b bs l.1 (λ a u. h a (omega (arith, u, l.0.below, least))),
      )

  -- Between two flashes a record was written at `addr` and linked between `base` and `next`.
  pub record IsInserted (m n : Mem) (base addr next : ℕ) : Type 0 where
    pub link : flash_read_uintptr base n ≡ addr
    pub new_link : flash_read_uintptr addr n ≡ next
    pub new_back : flash_read_uintptr (addr + 4) n ≡ base
    pub next_back : 0 < next → flash_read_uintptr (next + 4) n ≡ addr
    pub fits : addr + full_size addr n ≤ base
    pub higher : (a : ℕ) → base + 4 ≤ a → read_byte a n ≡ read_byte a m
    pub lower : (a : ℕ) → 0 < next → a < next + 4 → read_byte a n ≡ read_byte a m
    pub between : Agrees (next + 8) addr m n

  new-IsEntry :
      (m n : Mem) (start base addr next : ℕ)
      → IsInserted m n base addr next
      → 0 < addr
      → start ≤ addr
      → IsEntry n start base addr
  new-IsEntry m n start base addr next i p s = record {
    link = i.link;
    back = i.new_back;
    positive = p;
    above = s;
    below = i.fits;
  }

  pub insert_last-IsLinked :
      (m n : Mem) (start base addr : ℕ)
      → IsInserted m n base addr 0
      → 0 < addr
      → start ≤ addr
      → IsLinked n start base (addr ∷ [])
  insert_last-IsLinked m n start base addr i p s =
      (new-IsEntry m n start base addr 0 i p s, i.new_link)

  pub insert_before-IsLinked :
      (m n : Mem) (start base addr b : ℕ) (bs : List ℕ)
      → IsLinked m start base (b ∷ bs)
      → IsInserted m n base addr b
      → 0 < addr
      → start ≤ addr
      → b + full_size b m ≤ addr
      → IsLinked n start base (addr ∷ b ∷ bs)
  insert_before-IsLinked m n start base addr b bs l i p s fits =
      let same =
        full_size-Agrees b m n
          (λ a lo hi. i.between a (omega (arith, lo)) (omega (arith, hi, fits))) in
      let next : IsEntry n start addr b = record {
        link = i.new_link;
        back = i.next_back l.0.positive;
        positive = l.0.positive;
        above = l.0.above;
        below = omega (arith, same, fits);
      } in
      (
        new-IsEntry m n start base addr b i p s,
        (next, IsLinked-Agrees m n start b bs l.1 (λ a u. i.lower a l.0.positive u)),
      )

  pub insert_below-IsEntry :
      (m n : Mem) (start top b base addr next : ℕ)
      → IsEntry m start top b
      → IsInserted m n base addr next
      → base ≤ b
      → IsEntry n start top b
  insert_below-IsEntry m n start top b base addr next e i under =
      let least = full_size-least b m in
      IsEntry-Agrees m n start top b e
        (λ a lo hi. i.higher a (omega (arith, lo, e.below, least, under)))
        (λ a lo hi. i.higher a (omega (arith, lo, under)))
