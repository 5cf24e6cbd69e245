-- ===== src/Flash/Search.antt =====
-- FidoAuth/pico-keys-sdk/src/fs/flash.c: the loop of `allocate_free_addr` ends.
use key_wallet.Base.{
  ℕ, zero, suc, false, ◌+◌, ◌-◌, ◌≤◌, ◌<◌, ◌≡◌, ◌⊎◌, inl, inr, ◌&&◌, ◌||◌, none, some, ltb, leb,
  ◌==◌, Bool-cases, Option-cases, arith, ==_iff,
}
use key_wallet.Flash.{Place, gap_start, link_new, allocate_at, no_place, place_result}
use key_wallet.Flash.Memory.{FlashMemory, flash_read_uintptr}

module _ ⦃memory : FlashMemory⦄ where
  open memory use {Mem}

  some_gap :
      (start base next gap : ℕ) (m : Mem)
      → 0 < next
      → gap_start start base next m ≡ some gap
      → next < base
  unfolding gap_start
  some_gap start base next gap m p e = elim (Bool-cases (leb base next)) [
    | inl high ↦
        (let filled : (next == 0) ≡ false = ground (arith, p) in
          absurd (ground (arith, rw (filled, high) at e)))
    | inr low ↦ ground (arith, low)
  ]

  -- A run of the loop of `allocate_free_addr` from a record, or the end of the pool, to its return: it
  -- gives up where the record does not fit below `base` or the links are broken, takes the gap below
  -- `base` if it is large enough, gives up at the last gap, and goes on at the next record.
  pub data Searching (start real : ℕ) : ℕ → Mem → Place × Mem → Type 0 where
    refused :
        {base : ℕ} {m : Mem}
        → (base < start) ⊎ (base < real)
        → Searching start real base m (no_place, m)
    broken :
        {base : ℕ} {m : Mem}
        → start ≤ base
        → real ≤ base
        → gap_start start base (flash_read_uintptr base m) m ≡ none
        → Searching start real base m (no_place, m)
    taken :
        {base gap : ℕ} {m : Mem}
        → start + real ≤ base
        → gap_start start base (flash_read_uintptr base m) m ≡ some gap
        → gap + real ≤ base
        → Searching start real base m (
            place_result
              (base - real)
              base
              (link_new (base - real) base (flash_read_uintptr base m) m))
    full :
        {base gap : ℕ} {m : Mem}
        → start ≤ base
        → real ≤ base
        → gap_start start base (flash_read_uintptr base m) m ≡ some gap
        → (base < gap + real) ⊎ (base < start + real)
        → flash_read_uintptr base m ≡ 0
        → Searching start real base m (no_place, m)
    below :
        {base gap : ℕ} {m : Mem} {r : Place × Mem}
        → start ≤ base
        → real ≤ base
        → gap_start start base (flash_read_uintptr base m) m ≡ some gap
        → (base < gap + real) ⊎ (base < start + real)
        → 0 < flash_read_uintptr base m
        → Searching start real (flash_read_uintptr base m) m r
        → Searching start real base m r

  -- Whatever the flash holds: the loop of `allocate_free_addr` ends. What it returns in more rounds than
  -- the address it starts at is the result of a run of the loop, which is finite.
  pub allocate_at-Searching :
      (n start real base : ℕ) (m : Mem)
      → base < n
      → Searching start real base m (allocate_at n start real base m)
  unfolding allocate_at
  allocate_at-Searching zero start real base m h = absurd (omega arith)
  allocate_at-Searching (suc n) start real base m h =
      let next = flash_read_uintptr base m in
      elim (Bool-cases (ltb base start || ltb base real)) [
        | inl low ↦ rw low (refused (ground (arith, low)))
        | inr high ↦
            (let s : start ≤ base = ground (arith, high) in
              let r : real ≤ base = ground (arith, high) in
              elim (Option-cases (gap_start start base next m)) [
                | inl none_there ↦ rw (high, none_there) (broken s r none_there)
                | inr gap ↦ elim (Bool-cases (leb gap.0 (base - real) && leb start (base - real))) [
                  | inl fits ↦
                      rw (high, gap.1, fits)
                        (taken (ground (arith, fits, r)) gap.1 (ground (arith, fits, r)))
                  | inr tight ↦
                      (let small : (base < gap.0 + real) ⊎ (base < start + real) =
                          ground (arith, tight, r) in
                        elim (Bool-cases (next == 0)) [
                          | inl last ↦
                              rw (high, gap.1, tight, last)
                                (full s r gap.1 small ((==_iff next 0).0 last))
                          | inr more ↦
                              (let positive : 0 < next = ground (arith, more) in
                                let lower = some_gap start base next gap.0 m positive gap.1 in
                                rw (high, gap.1, tight, more)
                                  (below s r gap.1 small positive (
                                    allocate_at-Searching n start real next m
                                      (omega (arith, lower, h)))))
                        ])
                ]
              ])
      ]
