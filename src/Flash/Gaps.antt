-- ===== src/Flash/Gaps.antt =====
-- FidoAuth/pico-keys-sdk/src/fs/flash.c: when `allocate_free_addr` finds a gap.
use key_wallet.Base.{
  ℕ, zero, suc, ◌+◌, ◌-◌, ◌%◌, ◌^◌, ◌≤◌, ◌<◌, ◌≡◌, ◌↔◌, inl, inr, refl, sym, ap, ◌∙◌, false, ◌&&◌,
  ◌||◌, some, List, [], ◌∷◌, ltb, leb, ◌==◌, Bool-cases, arith, ==_iff,
}
use key_wallet.Bytes.{Status, ok}
use key_wallet.Flash.{
  Pool, Place, gap_start, link_new, and_program, length_size_of, allocate_at, allocate_free_addr,
}
use key_wallet.Flash.Memory.{
  FlashMemory, NeverFails, flash_read_uintptr, flash_program_uintptr, flash_program_word,
  bytes_of_32,
}
use key_wallet.Flash.Reads.{full_size, full_size-least}
use key_wallet.Flash.Links.{IsLinked}
use key_wallet.Flash.Walk.{takes, leaves, round-cases, gap_start-entry, gap_start-last}

module _ ⦃memory : FlashMemory⦄ where
  open memory use {Mem, read_byte, program_block}

  -- No gap holds a record of the size.
  abbrev pub IsTight : Mem → ℕ → ℕ → ℕ → List ℕ → Type 0
  IsTight m start real base [] = base < start + real
  IsTight m start real base (b ∷ bs) = (base < b + full_size b m + real) × IsTight m start real b bs

  tight_round :
      (rounds start real base gap : ℕ) (m : Mem)
      → gap_start start base (flash_read_uintptr base m) m ≡ some gap
      → base < gap + real
      → (0 < flash_read_uintptr base m
          → (allocate_at rounds start real (flash_read_uintptr base m) m).0.address ≡ 0)
      → (allocate_at (suc rounds) start real base m).0.address ≡ 0
  tight_round rounds start real base gap m g t rest =
      let done = allocate_at (suc rounds) start real base m in
      elim (Bool-cases (done.0.address == 0)) [
        | inl none_free ↦ (==_iff done.0.address 0).0 none_free
        | inr free ↦
            elim (round-cases rounds start real base gap m done.0 done.1 g refl
              (ground (arith, free))) [
                | takes s fits room above wrote ↦ absurd (omega (arith, fits, room, t))
                | leaves more e ↦ ap (λ (r : Place × Mem). r.0.address) (sym e) ∙ rest more
              ]
      ]

  tight_none :
      (rounds start real base : ℕ) (bs : List ℕ) (m : Mem)
      → IsLinked m start base bs
      → base < 2 ^ 32
      → IsTight m start real base bs
      → (allocate_at rounds start real base m).0.address ≡ 0
  unfolding allocate_at
  tight_none zero start real base bs m l w t = refl
  tight_none (suc rounds) start real base [] m l w t =
      tight_round rounds start real base start m (rw l (gap_start-last start base m)) t
        (λ p. absurd (omega (arith, p, l)))
  tight_none (suc rounds) start real base (b ∷ bs) m l w t =
      let least = full_size-least b m in
      let rest = tight_none rounds start real b bs m l.1 (omega (arith, l.0.below, w, least)) t.1 in
      tight_round rounds start real base (b + full_size b m) m
        (rw l.0.link (gap_start-entry m start base b l.0 w)) t.0 (λ p. rw l.0.link rest)

  small-IsTight :
      (start real base : ℕ) (bs : List ℕ) (m : Mem)
      → IsLinked m start base bs
      → base < start + real
      → IsTight m start real base bs
  small-IsTight start real base [] m l t = t
  small-IsTight start real base (b ∷ bs) m l t = (
    omega (arith, l.0.above, t),
    small-IsTight start real b bs m l.1 (omega (arith, l.0.below, t)),
  )

  module _ (never_fails : NeverFails) where
    and_program-ok : (done : Status × Mem) (a v : ℕ) → done.0 ≡ ok → (and_program done a v).0 ≡ ok
    unfolding flash_program_word
    and_program-ok (s, m) a v e = rw e (never_fails a (bytes_of_32 v) m (omega arith))

    link_new-ok : (addr base next : ℕ) (m : Mem) → (link_new addr base next m).0 ≡ ok
    unfolding link_new flash_program_word
    link_new-ok addr base next m =
        let own =
          and_program-ok (flash_program_uintptr addr next m) (addr + 4) base
            (never_fails addr (bytes_of_32 next) m (omega arith)) in
        elim (Bool-cases (next == 0)) [
          | inl last ↦ rw last own
          | inr more ↦ rw more (
              and_program-ok (and_program (flash_program_uintptr addr next m) (addr + 4) base)
                (next + 4) addr own)
        ]

    -- A round that finds nothing, although the pool has room for the record above its start.
    none_round :
        (rounds start real base gap : ℕ) (m : Mem)
        → gap_start start base (flash_read_uintptr base m) m ≡ some gap
        → start ≤ gap
        → start + real ≤ base
        → 0 < start
        → (allocate_at (suc rounds) start real base m).0.address ≡ 0
        → (base < gap + real)
          × (0 < flash_read_uintptr base m
              → (allocate_at rounds start real (flash_read_uintptr base m) m).0.address ≡ 0)
    unfolding allocate_at
    none_round rounds start real base gap m g a r p e =
        let next = flash_read_uintptr base m in
        let high : (ltb base start || ltb base real) ≡ false = ground (arith, r) in
        let linked = link_new-ok (base - real) base next m in
        elim (Bool-cases (leb gap (base - real) && leb start (base - real))) [
          | inl room ↦ absurd (omega (arith, rw (high, g, room, linked) at e, r, p))
          | inr small ↦ elim (Bool-cases (next == 0)) [
            | inl last ↦ (ground (arith, small, r, a), λ q. absurd (ground (arith, q, last)))
            | inr more ↦ (ground (arith, small, r, a), λ q. rw (high, g, small, more) at e)
          ]
        ]

    none-IsTight :
        (rounds start real base : ℕ) (bs : List ℕ) (m : Mem)
        → IsLinked m start base bs
        → base < 2 ^ 32
        → base < rounds
        → 0 < start
        → (allocate_at rounds start real base m).0.address ≡ 0
        → IsTight m start real base bs
    none-IsTight zero start real base bs m l w f p e = absurd (omega (arith, f))
    none-IsTight (suc rounds) start real base [] m l w f p e =
        elim (Bool-cases (ltb base (start + real))) [
          | inl small ↦ ground (arith, small)
          | inr large ↦
              (none_round rounds start real base start m (rw l (gap_start-last start base m))
                (omega arith) (ground (arith, large)) p e).0
        ]
    none-IsTight (suc rounds) start real base (b ∷ bs) m l w f p e =
        elim (Bool-cases (ltb base (start + real))) [
          | inl small ↦ small-IsTight start real base (b ∷ bs) m l (ground (arith, small))
          | inr large ↦
              (let least = full_size-least b m in
                let round =
                  none_round rounds start real base (b + full_size b m) m
                    (rw l.0.link (gap_start-entry m start base b l.0 w)) (omega (arith, l.0.above))
                    (ground (arith, large)) p e in
                let deeper = rw l.0.link at (round.1 (rw l.0.link l.0.positive)) in
                (
                  round.0,
                  none-IsTight rounds start real b bs m l.1 (omega (arith, l.0.below, w))
                      (omega (arith, l.0.below, least, f)) p deeper,
                ))
        ]

    -- On a pool that is a list of records, whose start is not 0 and not above its end, which is
    -- below 2^32, where no program operation of at least one byte fails: `allocate_free_addr`
    -- returns no address exactly if no gap, between two records, above the first or below the last,
    -- holds a record of the size with its header.
    pub allocate_free_addr-none_iff :
        (pool : Pool) (size : ℕ) (bs : List ℕ) (m : Mem)
        → IsLinked m pool.start pool.end bs
        → 0 < pool.start
        → pool.start ≤ pool.end
        → pool.end < 2 ^ 32
        → ((allocate_free_addr pool size m).0.address ≡ 0)
          ↔ IsTight m pool.start (10 + length_size_of size + size) pool.end bs
    unfolding allocate_free_addr
    allocate_free_addr-none_iff pool size bs m l p le w =
        let overhead = 10 + length_size_of size in
        elim (Bool-cases (
          ltb (2 ^ 32 - 1 - overhead) size
          || ltb ((pool.end + 2 ^ 32 - pool.start) % 2 ^ 32) (overhead + size))) [
            | inl refused ↦
                (let large : pool.end < pool.start + (overhead + size) =
                    ground (arith, refused, le, w) in
                  (
                    λ e. small-IsTight pool.start (overhead + size) pool.end bs m l large,
                    λ t. rw refused refl,
                  ))
            | inr fits ↦ (
              λ e.
                  none-IsTight (suc pool.end) pool.start (overhead + size) pool.end bs m l w
                    (omega arith) p (rw fits at e),
              λ t.
                  rw fits
                    (tight_none (suc pool.end) pool.start (overhead + size) pool.end bs m l w t),
            )
          ]
