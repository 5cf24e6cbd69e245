-- ===== src/Flash/Memory.antt =====
-- FidoAuth/pico-keys-sdk/src/fs/low_flash.c as flash.c sees it: bytes at addresses, blocks that are
-- programmed, and the words that the code reads and programs.
use key_wallet.Base.{
  ℕ, ◌+◌, ◌*◌, ◌/◌, ◌%◌, ◌≤◌, ◌<◌, ◌≡◌, ◌⊎◌, Bool, List, [], ◌∷◌, All, length, get_or, arith,
}
use key_wallet.Bytes.{Status, ok, IsByte}

pub record FlashMemory : Type 1 where
  pub Mem : Type 0
  -- a byte of `flash_read_block`, and `flash_program_block`
  pub read_byte : ℕ → Mem → ℕ
  pub program_block : ℕ → List ℕ → Mem → Status × Mem
  pub commit_sync : Mem → Bool × Mem

abbrev pub bytes_of_16 : ℕ → List ℕ
bytes_of_16 v = v % 256 ∷ v / 256 % 256 ∷ []

abbrev pub bytes_of_32 : ℕ → List ℕ
bytes_of_32 v = v % 256 ∷ v / 256 % 256 ∷ v / 0x10000 % 256 ∷ v / 0x1000000 % 256 ∷ []

module _ ⦃memory : FlashMemory⦄ where
  open memory use {Mem, read_byte, program_block, commit_sync}

  -- What is programmed is read back, and nothing else changes.
  pub record IsMemory : Type 0 where
    pub outside :
        (a b : ℕ) (bs : List ℕ) (m : Mem)
        → (b < a) ⊎ (a + length bs ≤ b)
        → read_byte b (program_block a bs m).1 ≡ read_byte b m
    pub written :
        (a i : ℕ) (bs : List ℕ) (m : Mem)
        → (program_block a bs m).0 ≡ ok
        → All IsByte bs
        → i < length bs
        → read_byte (a + i) (program_block a bs m).1 ≡ get_or bs i 0
    pub committed : (a : ℕ) (m : Mem) → read_byte a (commit_sync m).1 ≡ read_byte a m

  -- No block of at least one byte fails; that of none is an error.
  abbrev pub NeverFails : Type 0
  NeverFails =
      (a : ℕ) (bytes : List ℕ) (m : Mem) → 0 < length bytes → (program_block a bytes m).0 ≡ ok

  unfoldable pub flash_read_uint16 : ℕ → Mem → ℕ
  flash_read_uint16 addr m = read_byte addr m + 256 * read_byte (addr + 1) m

  unfoldable pub flash_read_uint32 : ℕ → Mem → ℕ
  flash_read_uint32 addr m =
      read_byte addr m
      + 256 * read_byte (addr + 1) m
      + 0x10000 * read_byte (addr + 2) m
      + 0x1000000 * read_byte (addr + 3) m

  -- A pointer of the ESP32 has 32 bits.
  abbrev pub flash_read_uintptr : ℕ → Mem → ℕ
  flash_read_uintptr = flash_read_uint32

  unfoldable pub flash_program_halfword : ℕ → ℕ → Mem → Status × Mem
  flash_program_halfword addr v m = program_block addr (bytes_of_16 v) m

  unfoldable pub flash_program_word : ℕ → ℕ → Mem → Status × Mem
  flash_program_word addr v m = program_block addr (bytes_of_32 v) m

  abbrev pub flash_program_uintptr : ℕ → ℕ → Mem → Status × Mem
  flash_program_uintptr = flash_program_word

pub bytes_of_16-IsByte : (v : ℕ) → All IsByte (bytes_of_16 v)
bytes_of_16-IsByte v = (omega arith, (omega arith, tt))

pub bytes_of_32-IsByte : (v : ℕ) → All IsByte (bytes_of_32 v)
bytes_of_32-IsByte v = (omega arith, (omega arith, (omega arith, (omega arith, tt))))
