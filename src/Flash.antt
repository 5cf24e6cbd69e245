-- ===== src/Flash.antt =====
-- FidoAuth/pico-keys-sdk/src/fs/flash.c: the records of the files in the flash, a list that is linked
-- downwards from the end of a pool. An address is a number below 2 ^ 32.
pub mod Memory
pub mod Reads
pub mod Links
pub mod Walk
pub mod Write
pub mod Publish
pub mod NewLinks
pub mod Written
pub mod Stored
pub mod NewFile
pub mod Gaps
pub mod Search
pub mod Wipe
pub mod Unlinked
pub mod Cleared
use key_wallet.Base.{
  ℕ, zero, suc, ◌+◌, ◌-◌, ◌*◌, ◌%◌, ◌^◌, Bool, true, false, not, ◌&&◌, ◌||◌, Option, none, some,
  ltb, leb, ◌==◌, if◌then◌else◌, List, [], ◌∷◌, length,
}
use key_wallet.Bytes.{Status, ok, no_memory}
use key_wallet.Flash.Memory.{
  FlashMemory, flash_read_uint16, flash_read_uint32, flash_read_uintptr, flash_program_halfword,
  flash_program_word, flash_program_uintptr,
}

abbrev pub extended_length : ℕ
extended_length = 0xffff

abbrev pub legacy_length_size : ℕ
legacy_length_size = 2

abbrev pub extended_length_size : ℕ
extended_length_size = 6

-- `end_data_pool` and its companions
pub record Pool : Type 0 where
  pub start : ℕ
  pub end : ℕ

-- The address of a new record, 0 if there is none, and where it is to be linked.
pub record Place : Type 0 where
  pub address : ℕ
  pub publish_at : ℕ

abbrev pub no_place : Place
no_place = record { address = 0; publish_at = 0 }

abbrev pub length_size_of : ℕ → ℕ
length_size_of size = if leb extended_length size then extended_length_size else legacy_length_size

abbrev pub is_done : Status → Bool
is_done ok = true
is_done e = false

module _ ⦃memory : FlashMemory⦄ where
  open memory use {Mem, read_byte, program_block, commit_sync}

  unfoldable pub record_length_size : ℕ → Mem → ℕ
  record_length_size base m =
      if flash_read_uint16 (base + 10) m == extended_length
      then extended_length_size
      else legacy_length_size

  unfoldable pub record_payload_size : ℕ → Mem → ℕ
  record_payload_size base m =
      let stored = flash_read_uint16 (base + 10) m in
      if stored == extended_length then flash_read_uint32 (base + 12) m else stored

  unfoldable pub flash_record_size : ℕ → Mem → ℕ
  flash_record_size base m = (10 + record_length_size base m + record_payload_size base m) % 2 ^ 32

  -- The end of the record below, or the start of the pool; none where the links are broken.
  unfoldable pub gap_start : ℕ → ℕ → ℕ → Mem → Option ℕ
  gap_start start base next m =
      if next == 0
      then some start
      else if leb base next || ltb (base - next) (flash_record_size next m)
      then none
      else some (next + flash_record_size next m)

  abbrev pub and_program : Status × Mem → ℕ → ℕ → Status × Mem
  and_program done addr v = if is_done done.0 then flash_program_uintptr addr v done.1 else done

  -- The links of the new record, and the one back to it.
  unfoldable pub link_new : ℕ → ℕ → ℕ → Mem → Status × Mem
  link_new addr base next m =
      let linked = and_program (flash_program_uintptr addr next m) (addr + 4) base in
      if next == 0 then linked else and_program linked (next + 4) addr

  abbrev pub place_result : ℕ → ℕ → Status × Mem → Place × Mem
  place_result addr base done =
      (if is_done done.0 then record { address = addr; publish_at = base } else no_place, done.1)

  -- The loop of `allocate_free_addr`.
  unfoldable pub allocate_at : ℕ → ℕ → ℕ → ℕ → Mem → Place × Mem
  allocate_at zero start real_size base m = (no_place, m)
  allocate_at (suc rounds) start real_size base m =
      let next = flash_read_uintptr base m in
      let rest = allocate_at rounds start real_size next m in
      if ltb base start || ltb base real_size
      then (no_place, m)
      else elim (gap_start start base next m) [
        | none ↦ (no_place, m)
        | some gap ↦
            if leb gap (base - real_size) && leb start (base - real_size)
            then place_result (base - real_size) base (link_new (base - real_size) base next m)
            else if next == 0
            then (no_place, m)
            else rest
      ]

  unfoldable pub allocate_free_addr : Pool → ℕ → Mem → Place × Mem
  allocate_free_addr pool size m =
      let overhead = 10 + length_size_of size in
      if ltb (2 ^ 32 - 1 - overhead) size
        || ltb ((pool.end + 2 ^ 32 - pool.start) % 2 ^ 32) (overhead + size)
      then (no_place, m)
      else allocate_at (suc pool.end) pool.start (overhead + size) pool.end m
