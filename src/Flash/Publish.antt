-- ===== src/Flash/Publish.antt =====
-- FidoAuth/pico-keys-sdk/src/fs/flash.c: a new record from its place to its link.
use key_wallet.Base.{
  ℕ, suc, ◌+◌, ◌%◌, ◌^◌, ◌≤◌, ◌<◌, ◌≡◌, ◌⊎◌, inl, inr, refl, sym, ap, ◌∙◌, false, leb, ◌==◌,
  Bool-cases, arith,
}
use key_wallet.Bytes.{Status, ok}
use key_wallet.Flash.{
  is_done, extended_length, length_size_of, record_length_size, record_payload_size,
}
use key_wallet.Flash.Memory.{
  FlashMemory, IsMemory, flash_read_uint16, flash_read_uint32, flash_program_halfword,
  flash_program_word, bytes_of_16, bytes_of_16-IsByte,
}
use key_wallet.Flash.Reads.{
  Agrees, full_size, read_uint16-Agrees, program_word-read, program_word-Agrees,
}
use key_wallet.Flash.Walk.{done_cases}
use key_wallet.Flash.Write.{after_ok, write_file_length}

module _ ⦃memory : FlashMemory⦄ where
  open memory use {Mem, read_byte, program_block, commit_sync}

  -- A step that ended well came after one that ended well.
  pub after_ok-split :
      (done : Status × Mem) (step : Mem → Status × Mem)
      → (after_ok done step).0 ≡ ok
      → (done.0 ≡ ok) × (after_ok done step ≡ step done.1)
  after_ok-split (s, m) step e = elim (done_cases s) [
    | inl fine ↦ (fine, rw fine refl)
    | inr bad ↦ (let fine : s ≡ ok = rw bad at e in absurd (ground (arith, bad, ap is_done fine)))
  ]

  -- Only bytes from `lo` up to `hi` may differ.
  abbrev pub IsOutside : ℕ → ℕ → Mem → Mem → Type 0
  IsOutside lo hi m n = (a : ℕ) → (a < lo) ⊎ (hi ≤ a) → read_byte a n ≡ read_byte a m

  pub IsOutside-Agrees :
      (lo hi l u : ℕ) (m n : Mem) → IsOutside lo hi m n → (u ≤ lo) ⊎ (hi ≤ l) → Agrees l u m n
  IsOutside-Agrees lo hi l u m n h (inl e) a la ua = h a (inl (omega (arith, ua, e)))
  IsOutside-Agrees lo hi l u m n h (inr e) a la ua = h a (inr (omega (arith, la, e)))

  pub wider :
      (lo hi l u : ℕ) (m n : Mem) → l ≤ lo → hi ≤ u → IsOutside lo hi m n → IsOutside l u m n
  wider lo hi l u m n a b h c (inl e) = h c (inl (omega (arith, e, a)))
  wider lo hi l u m n a b h c (inr e) = h c (inr (omega (arith, e, b)))

  pub both :
      (lo hi : ℕ) (m n o : Mem) → IsOutside lo hi m n → IsOutside lo hi n o → IsOutside lo hi m o
  both lo hi m n o g h a e = h a e ∙ g a e

  module _ (laws : IsMemory) where
    pub program_halfword-IsOutside :
        (a v : ℕ) (m : Mem) → IsOutside a (a + 2) m (flash_program_halfword a v m).1
    unfolding flash_program_halfword
    program_halfword-IsOutside a v m b e = laws.outside a b (bytes_of_16 v) m e

    pub program_word-IsOutside :
        (a v : ℕ) (m : Mem) → IsOutside a (a + 4) m (flash_program_word a v m).1
    program_word-IsOutside a v m b (inl e) =
        program_word-Agrees laws a v b (suc b) m (inl (omega (arith, e))) b (omega arith)
          (omega arith)
    program_word-IsOutside a v m b (inr e) =
        program_word-Agrees laws a v b (suc b) m (inr e) b (omega arith) (omega arith)

    pub program_halfword-read :
        (a v : ℕ) (m : Mem)
        → v < 2 ^ 16
        → (flash_program_halfword a v m).0 ≡ ok
        → flash_read_uint16 a (flash_program_halfword a v m).1 ≡ v
    unfolding flash_program_halfword flash_read_uint16
    program_halfword-read a v m l e =
        let here : a ≡ a + 0 = omega arith in
        let first : read_byte a (program_block a (bytes_of_16 v) m).1 ≡ v % 256 =
          ap (λ (b : ℕ). read_byte b (program_block a (bytes_of_16 v) m).1) here
          ∙ laws.written a 0 (bytes_of_16 v) m e (bytes_of_16-IsByte v) (omega arith) in
        rw (first, laws.written a 1 (bytes_of_16 v) m e (bytes_of_16-IsByte v) (omega arith))
          (omega arith)

    -- The length of a record takes six bytes at most, and is read back.
    pub write_file_length-IsOutside :
        (at len : ℕ) (m : Mem)
        → (write_file_length at len m).0 ≡ ok
        → IsOutside at (at + length_size_of len) m (write_file_length at len m).1
    unfolding write_file_length
    write_file_length-IsOutside at len m e = elim (Bool-cases (leb extended_length len)) [
      | inl long ↦
          (let step = flash_program_word (at + 2) len in
            let first = flash_program_halfword at extended_length m in
            let parts = after_ok-split first step (rw long at e) in
            rw (long, parts.1)
              (both at (at + 6) m first.1 (step first.1).1
                (wider at (at + 2) at (at + 6) m first.1 (omega arith) (omega arith)
                  (program_halfword-IsOutside at extended_length m))
                (wider (at + 2) (at + 2 + 4) at (at + 6) first.1 (step first.1).1 (omega arith)
                  (omega arith) (program_word-IsOutside (at + 2) len first.1))))
      | inr short ↦ rw short (program_halfword-IsOutside at (len % 2 ^ 16) m)
    ]

    pub write_file_length-full :
        (base len : ℕ) (m : Mem)
        → len < 2 ^ 32
        → (write_file_length (base + 10) len m).0 ≡ ok
        → (record_length_size base (write_file_length (base + 10) len m).1 ≡ length_size_of len)
          × (full_size base (write_file_length (base + 10) len m).1 ≡ 10 + length_size_of len + len)
    unfolding write_file_length record_length_size record_payload_size
    write_file_length-full base len m l e = elim (Bool-cases (leb extended_length len)) [
      | inl long ↦
          (let step = flash_program_word (base + 10 + 2) len in
            let first = flash_program_halfword (base + 10) extended_length m in
            let parts = after_ok-split first step (rw long at e) in
            let fine : (step first.1).0 ≡ ok =
              ap (λ (r : Status × Mem). r.0) (sym parts.1) ∙ rw long at e in
            let mark : flash_read_uint16 (base + 10) (step first.1).1 ≡ extended_length =
              read_uint16-Agrees (base + 10) first.1 (step first.1).1 (
                IsOutside-Agrees (base + 10 + 2) (base + 10 + 2 + 4) (base + 10) (base + 10 + 2)
                  first.1 (step first.1).1 (program_word-IsOutside (base + 10 + 2) len first.1)
                  (inl (omega arith)))
              ∙ program_halfword-read (base + 10) extended_length m (omega arith) parts.0 in
            let there : base + 12 ≡ base + 10 + 2 = omega arith in
            let value : flash_read_uint32 (base + 12) (step first.1).1 ≡ len =
              ap (λ (a : ℕ). flash_read_uint32 a (step first.1).1) there
              ∙ program_word-read laws (base + 10 + 2) len first.1 l fine in
            (rw (long, parts.1, mark) refl, rw (long, parts.1, mark, value) refl))
      | inr short ↦
          (let fits : len % 2 ^ 16 ≡ len = ground (arith, short) in
            let value : flash_read_uint16 (base + 10)
                  (flash_program_halfword (base + 10) (len % 2 ^ 16) m).1
                ≡ len =
              program_halfword-read (base + 10) (len % 2 ^ 16) m (omega arith) (rw short at e)
              ∙ fits in
            let unmarked : (len == extended_length) ≡ false = ground (arith, short) in
            (rw (short, value, unmarked) refl, rw (short, value, unmarked) refl))
    ]
