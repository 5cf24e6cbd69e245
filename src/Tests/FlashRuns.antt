-- ===== src/Tests/FlashRuns.antt =====
-- Writes to a pool of FidoAuth/pico-keys-sdk/src/fs/flash.c, in a memory that is a function.
use key_wallet.Base.{
  ℕ, ◌+◌, ◌-◌, ◌≡◌, ◌↔◌, inl, inr, refl, none, some, List, [], ◌∷◌, All, length, get_or, true,
  false, ltb, if◌then◌else◌, arith,
}
use key_wallet.Bytes.{ok, IsByte}
use key_wallet.Flash.{
  Pool, allocate_at, allocate_free_addr, gap_start, link_new, record_length_size,
  record_payload_size, flash_record_size, length_size_of,
}
use key_wallet.Flash.Memory.{
  FlashMemory, IsMemory, flash_read_uint16, flash_read_uint32, flash_program_halfword,
  flash_program_word,
}
use key_wallet.Flash.Links.{IsLinked}
use key_wallet.Flash.Write.{
  FlashState, flash_clear_file, flash_write_data_to_file, write_new, write_at, drop_old, publish,
  sync_if, write_new_record, write_file_length,
}
use key_wallet.Flash.NewFile.{HasRecord, flash_write-HasRecord}
use key_wallet.Flash.Cleared.{IsCleared, flash_clear_file-IsCleared}
use key_wallet.Flash.Gaps.{IsTight, allocate_free_addr-none_iff}
use key_wallet.Flash.Search.{Searching, allocate_at-Searching}

abbrev overwrite : ℕ → List ℕ → (ℕ → ℕ) → ℕ → ℕ
overwrite a bs m b =
    if ltb b a then m b else if ltb (b - a) (length bs) then get_or bs (b - a) 0 else m b

instance abbrev function_memory : FlashMemory
function_memory = record {
  Mem = ℕ → ℕ;
  read_byte = λ a m. m a;
  program_block = λ a bs m. (ok, overwrite a bs m);
  commit_sync = λ m. (true, m);
}

function_memory-IsMemory : IsMemory
function_memory-IsMemory = record {
  outside = λ a b bs m t. elim t [
    | inl l ↦ (let low : ltb b a ≡ true = ground (arith, l) in rw low refl)
    | inr u ↦
        (let high : ltb b a ≡ false = ground (arith, u) in
          let past : ltb (b - a) (length bs) ≡ false = ground (arith, u) in rw (high, past) refl)
  ];
  written = λ a i bs m e are l.
      (let high : ltb (a + i) a ≡ false = ground arith in
        let here : a + i - a ≡ i = omega arith in
        let within : ltb i (length bs) ≡ true = ground (arith, l) in rw (high, here, within) refl);
  committed = λ a m. refl;
}

abbrev some_pool : Pool
some_pool = record { start = 16; end = 1000 }

abbrev empty_flash : FlashState
empty_flash = record { mem = λ a. 0; last_base = 1000; num_files = 0 }

-- One file of three bytes, in a record at 985.
abbrev one_file : FlashState
one_file = (flash_write_data_to_file some_pool none 0xcf00 (1 ∷ 2 ∷ 3 ∷ []) empty_flash).1.1

one_file-IsLinked : IsLinked one_file.mem 16 1000 (985 ∷ [])
unfolding flash_write_data_to_file write_new write_at drop_old publish sync_if write_new_record
    write_file_length allocate_free_addr allocate_at gap_start link_new record_length_size
    record_payload_size flash_record_size flash_read_uint16 flash_read_uint32 flash_program_halfword
    flash_program_word
one_file-IsLinked = (
  record {
    link = refl;
    back = refl;
    positive = omega arith;
    above = omega arith;
    below = omega arith;
  },
  refl,
)

second_ok : (flash_write_data_to_file some_pool none 0xcf01 (7 ∷ 8 ∷ []) one_file).0 ≡ ok
unfolding flash_write_data_to_file write_new write_at drop_old publish sync_if write_new_record
    write_file_length allocate_free_addr allocate_at gap_start link_new record_length_size
    record_payload_size flash_record_size flash_read_uint16 flash_read_uint32 flash_program_halfword
    flash_program_word
second_ok = refl

two_bytes : All IsByte (7 ∷ 8 ∷ [])
two_bytes = (omega arith, (omega arith, tt))

flash_write-HasRecord_example :
    (addr : ℕ) × (((flash_write_data_to_file some_pool none 0xcf01 (7 ∷ 8 ∷ []) one_file).1.0
        ≡ some (addr + 10))
      × HasRecord one_file.mem
          (flash_write_data_to_file some_pool none 0xcf01 (7 ∷ 8 ∷ []) one_file).1.1.mem
          some_pool
          (985 ∷ [])
          addr
          0xcf01
          (7 ∷ 8 ∷ []))
flash_write-HasRecord_example =
    flash_write-HasRecord function_memory-IsMemory some_pool 0xcf01 (7 ∷ 8 ∷ []) (985 ∷ []) one_file
      one_file-IsLinked (omega arith) (omega arith) two_bytes second_ok

allocate_at-Searching_example :
    Searching 16 14 1000 one_file.mem (allocate_at 1001 16 14 1000 one_file.mem)
allocate_at-Searching_example = allocate_at-Searching 1001 16 14 1000 one_file.mem (omega arith)

allocate_free_addr-none_iff_example :
    ((allocate_free_addr some_pool 2 one_file.mem).0.address ≡ 0)
    ↔ IsTight one_file.mem 16 (10 + length_size_of 2 + 2) 1000 (985 ∷ [])
allocate_free_addr-none_iff_example =
    allocate_free_addr-none_iff (λ a bytes m l. refl) some_pool 2 (985 ∷ []) one_file.mem
      one_file-IsLinked (omega arith) (omega arith) (omega arith)

flash_clear_file-IsCleared_example :
    ((flash_clear_file (some (985 + 10)) one_file).0 ≡ ok)
    × (((flash_clear_file (some (985 + 10)) one_file).1.0 ≡ none)
        × IsCleared one_file.mem
            (flash_clear_file (some (985 + 10)) one_file).1.1.mem
            16
            1000
            (985 ∷ [])
            985)
flash_clear_file-IsCleared_example =
    flash_clear_file-IsCleared function_memory-IsMemory (λ a bytes m l. refl) 16 1000 985 (985 ∷ [])
      one_file one_file-IsLinked (omega arith) (inl refl)
