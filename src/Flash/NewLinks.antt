-- ===== src/Flash/NewLinks.antt =====
-- FidoAuth/pico-keys-sdk/src/fs/flash.c: what is read of the links of a new record.
use key_wallet.Base.{
  ℕ, ◌+◌, ◌^◌, ◌≤◌, ◌<◌, ◌≡◌, ◌⊎◌, inl, inr, refl, sym, ap, ◌∙◌, ◌==◌, Bool-cases, arith, ==_iff,
}
use key_wallet.Bytes.{Status, ok}
use key_wallet.Flash.{link_new, and_program}
use key_wallet.Flash.Memory.{FlashMemory, IsMemory, flash_read_uintptr, flash_program_uintptr}
use key_wallet.Flash.Reads.{read_uint32-Agrees, program_word-read}
use key_wallet.Flash.Publish.{
  after_ok-split, IsOutside, IsOutside-Agrees, wider, both, program_word-IsOutside,
}

module _ ⦃memory : FlashMemory⦄ where
  open memory use {Mem, read_byte, program_block, commit_sync}

  -- The links of a new record are there, and nothing but them and the link back to it has changed.
  pub record HasLinks (m n : Mem) (addr base next : ℕ) : Type 0 where
    pub new_link : flash_read_uintptr addr n ≡ next
    pub new_back : flash_read_uintptr (addr + 4) n ≡ base
    pub next_back : 0 < next → flash_read_uintptr (next + 4) n ≡ addr
    pub rest :
        (a : ℕ)
        → (a < addr) ⊎ (addr + 8 ≤ a)
        → (next ≡ 0) ⊎ ((a < next + 4) ⊎ (next + 8 ≤ a))
        → read_byte a n ≡ read_byte a m

  pub whole_ok : (done : Status × Mem) → done.0 ≡ ok → done ≡ (ok, done.1)
  whole_ok (s, m) e = rw e refl

  module _ (laws : IsMemory) where
    -- Two words that are programmed one after the other.
    own_links :
        (addr base next : ℕ) (m n : Mem)
        → base < 2 ^ 32
        → next < 2 ^ 32
        → and_program (flash_program_uintptr addr next m) (addr + 4) base ≡ (ok, n)
        → (flash_read_uintptr addr n ≡ next)
          × ((flash_read_uintptr (addr + 4) n ≡ base) × IsOutside addr (addr + 8) m n)
    own_links addr base next m n lb ln e =
        let first = flash_program_uintptr addr next m in
        let step = flash_program_uintptr (addr + 4) base in
        let parts = after_ok-split first step (ap (λ (r : Status × Mem). r.0) e) in
        let whole : step first.1 ≡ (ok, n) = sym parts.1 ∙ e in
        let fine : (step first.1).0 ≡ ok = ap (λ (r : Status × Mem). r.0) whole in
        let end : (step first.1).1 ≡ n = ap (λ (r : Status × Mem). r.1) whole in
        let kept : flash_read_uintptr addr (step first.1).1 ≡ next =
          read_uint32-Agrees addr first.1 (step first.1).1 (
            IsOutside-Agrees (addr + 4) (addr + 4 + 4) addr (addr + 4) first.1 (step first.1).1
              (program_word-IsOutside laws (addr + 4) base first.1) (inl (omega arith)))
          ∙ program_word-read laws addr next m ln parts.0 in
        let out =
          both addr (addr + 8) m first.1 (step first.1).1
            (wider addr (addr + 4) addr (addr + 8) m first.1 (omega arith) (omega arith)
              (program_word-IsOutside laws addr next m))
            (wider (addr + 4) (addr + 4 + 4) addr (addr + 8) first.1 (step first.1).1 (omega arith)
              (omega arith) (program_word-IsOutside laws (addr + 4) base first.1)) in
        let all : (flash_read_uintptr addr (step first.1).1 ≡ next)
            × ((flash_read_uintptr (addr + 4) (step first.1).1 ≡ base)
                × IsOutside addr (addr + 8) m (step first.1).1) =
          (kept, (program_word-read laws (addr + 4) base first.1 lb fine, out)) in
        rw end at all

    linked_back :
        (addr base next : ℕ) (m n : Mem)
        → base < 2 ^ 32
        → addr + 12 ≤ base
        → 0 < next
        → (0 < next → next + 12 ≤ addr)
        → and_program
            (and_program (flash_program_uintptr addr next m) (addr + 4) base)
            (next + 4)
            addr
          ≡ (ok, n)
        → HasLinks m n addr base next
    linked_back addr base next m n lb la p ln e =
        let done = and_program (flash_program_uintptr addr next m) (addr + 4) base in
        let step = flash_program_uintptr (next + 4) addr in
        let parts = after_ok-split done step (ap (λ (r : Status × Mem). r.0) e) in
        let whole : step done.1 ≡ (ok, n) = sym parts.1 ∙ e in
        let own =
          own_links addr base next m done.1 lb (omega (arith, ln p, la, lb))
            (whole_ok done parts.0) in
        let out : IsOutside (next + 4) (next + 4 + 4) done.1 n =
          rw (ap (λ (r : Status × Mem). r.1) whole) at
            (program_word-IsOutside laws (next + 4) addr done.1) in
        let back : flash_read_uintptr (next + 4) n ≡ addr =
          rw (ap (λ (r : Status × Mem). r.1) whole) at (
            program_word-read laws (next + 4) addr done.1 (omega (arith, la, lb))
              (ap (λ (r : Status × Mem). r.0) whole)) in
        record {
          new_link =
              read_uint32-Agrees addr done.1 n (
                IsOutside-Agrees (next + 4) (next + 4 + 4) addr (addr + 4) done.1 n out
                  (inr (omega (arith, ln p))))
              ∙ own.0;
          new_back =
              read_uint32-Agrees (addr + 4) done.1 n (
                IsOutside-Agrees (next + 4) (next + 4 + 4) (addr + 4) (addr + 4 + 4) done.1 n out
                  (inr (omega (arith, ln p))))
              ∙ own.1.0;
          next_back = λ h. back;
          rest = λ a o t. out a (beyond a t) ∙ own.1.1 a o;
        }
      where
        beyond :
            (a : ℕ)
            → (next ≡ 0) ⊎ ((a < next + 4) ⊎ (next + 8 ≤ a))
            → (a < next + 4) ⊎ (next + 4 + 4 ≤ a)
        beyond a (inl z) = absurd (omega (arith, z, p))
        beyond a (inr (inl l)) = inl l
        beyond a (inr (inr u)) = inr (omega (arith, u))

    pub link_new-HasLinks :
        (addr base next : ℕ) (m n : Mem)
        → base < 2 ^ 32
        → addr + 12 ≤ base
        → (0 < next → next + 12 ≤ addr)
        → link_new addr base next m ≡ (ok, n)
        → HasLinks m n addr base next
    unfolding link_new
    link_new-HasLinks addr base next m n lb la ln e = elim (Bool-cases (next == 0)) [
      | inl last ↦
          (let zero_next = (==_iff next 0).0 last in
            let own = own_links addr base next m n lb (omega (arith, zero_next)) (rw last at e) in
            record {
              new_link = own.0;
              new_back = own.1.0;
              next_back = λ p. absurd (omega (arith, p, zero_next));
              rest = λ a o t. own.1.1 a o;
            })
      | inr more ↦ linked_back addr base next m n lb la (ground (arith, more)) ln (rw more at e)
    ]
