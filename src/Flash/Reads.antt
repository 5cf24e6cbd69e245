-- ===== src/Flash/Reads.antt =====
-- FidoAuth/pico-keys-sdk/src/fs/flash.c: what the words that are read depend on.
use key_wallet.Base.{
  ℕ, ◌+◌, ◌%◌, ◌^◌, ◌≤◌, ◌<◌, ◌≡◌, ◌⊎◌, inl, inr, refl, ap, ◌∙◌, ◌==◌, Bool-cases, arith,
}
use key_wallet.Bytes.{ok}
use key_wallet.Flash.{extended_length, record_length_size, record_payload_size, flash_record_size}
use key_wallet.Flash.Memory.{
  FlashMemory, IsMemory, flash_read_uint16, flash_read_uint32, bytes_of_32, bytes_of_32-IsByte,
  flash_program_word,
}

module _ ⦃memory : FlashMemory⦄ where
  open memory use {Mem, read_byte, program_block, commit_sync}

  -- The bytes of a range are the same.
  abbrev pub Agrees : ℕ → ℕ → Mem → Mem → Type 0
  Agrees lo hi m n = (a : ℕ) → lo ≤ a → a < hi → read_byte a n ≡ read_byte a m

  pub read_uint16-Agrees :
      (a : ℕ) (m n : Mem) → Agrees a (a + 2) m n → flash_read_uint16 a n ≡ flash_read_uint16 a m
  unfolding flash_read_uint16
  read_uint16-Agrees a m n h =
      rw (h a (omega arith) (omega arith), h (a + 1) (omega arith) (omega arith)) refl

  pub read_uint32-Agrees :
      (a : ℕ) (m n : Mem) → Agrees a (a + 4) m n → flash_read_uint32 a n ≡ flash_read_uint32 a m
  unfolding flash_read_uint32
  read_uint32-Agrees a m n h =
      rw
        (
          h a (omega arith) (omega arith),
          h (a + 1) (omega arith) (omega arith),
          h (a + 2) (omega arith) (omega arith),
          h (a + 3) (omega arith) (omega arith),
        )
        refl

  -- The size of a record, where nothing wraps around.
  abbrev pub full_size : ℕ → Mem → ℕ
  full_size base m = 10 + record_length_size base m + record_payload_size base m

  pub flash_record_size-full :
      (base : ℕ) (m : Mem) → full_size base m < 2 ^ 32 → flash_record_size base m ≡ full_size base m
  unfolding flash_record_size
  flash_record_size-full base m l = omega (arith, l)

  pub full_size-least : (base : ℕ) (m : Mem) → 12 ≤ full_size base m
  unfolding record_length_size
  full_size-least base m = elim (Bool-cases (flash_read_uint16 (base + 10) m == extended_length)) [
    | inl e ↦ rw e (omega arith)
    | inr e ↦ rw e (omega arith)
  ]

  pub record_length_size-Agrees :
      (base : ℕ) (m n : Mem)
      → Agrees (base + 10) (base + 12) m n
      → record_length_size base n ≡ record_length_size base m
  unfolding record_length_size
  record_length_size-Agrees base m n h =
      rw (read_uint16-Agrees (base + 10) m n (λ a l u. h a l (omega (arith, u)))) refl

  -- The size of a record depends on its length alone.
  pub full_size-same :
      (base : ℕ) (m n : Mem)
      → Agrees (base + 10) (base + 10 + record_length_size base m) m n
      → full_size base n ≡ full_size base m
  unfolding record_length_size record_payload_size
  full_size-same base m n h =
      elim (Bool-cases (flash_read_uint16 (base + 10) m == extended_length)) [
        | inl e ↦
            (let long : record_length_size base m ≡ 6 = rw e refl in
              let short =
                read_uint16-Agrees (base + 10) m n (λ a l u. h a l (omega (arith, u, long))) in
              let wide =
                read_uint32-Agrees (base + 12) m n
                  (λ a l u. h a (omega (arith, l)) (omega (arith, u, long))) in
              rw (short, e, wide) refl)
        | inr e ↦
            (let brief : record_length_size base m ≡ 2 = rw e refl in
              let short =
                read_uint16-Agrees (base + 10) m n (λ a l u. h a l (omega (arith, u, brief))) in
              rw (short, e) refl)
      ]

  pub full_size-Agrees :
      (base : ℕ) (m n : Mem)
      → Agrees (base + 10) (base + full_size base m) m n
      → full_size base n ≡ full_size base m
  full_size-Agrees base m n h = full_size-same base m n (λ a l u. h a l (omega (arith, u)))

  module _ (laws : IsMemory) where
    pub program_word-read :
        (a v : ℕ) (m : Mem)
        → v < 2 ^ 32
        → (flash_program_word a v m).0 ≡ ok
        → flash_read_uint32 a (flash_program_word a v m).1 ≡ v
    unfolding flash_read_uint32 flash_program_word
    program_word-read a v m l e =
        let here : a ≡ a + 0 = omega arith in
        let first : read_byte a (program_block a (bytes_of_32 v) m).1 ≡ v % 256 =
          ap (λ (b : ℕ). read_byte b (program_block a (bytes_of_32 v) m).1) here
          ∙ laws.written a 0 (bytes_of_32 v) m e (bytes_of_32-IsByte v) (omega arith) in
        rw
          (
            first,
            laws.written a 1 (bytes_of_32 v) m e (bytes_of_32-IsByte v) (omega arith),
            laws.written a 2 (bytes_of_32 v) m e (bytes_of_32-IsByte v) (omega arith),
            laws.written a 3 (bytes_of_32 v) m e (bytes_of_32-IsByte v) (omega arith),
          )
          (omega arith)

    pub program_word-Agrees :
        (a v lo hi : ℕ) (m : Mem)
        → (hi ≤ a) ⊎ (a + 4 ≤ lo)
        → Agrees lo hi m (flash_program_word a v m).1
    unfolding flash_program_word
    program_word-Agrees a v lo hi m (inl below) b l u =
        laws.outside a b (bytes_of_32 v) m (inl (omega arith))
    program_word-Agrees a v lo hi m (inr above) b l u =
        laws.outside a b (bytes_of_32 v) m (inr (omega arith))
