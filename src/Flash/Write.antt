-- ===== src/Flash/Write.antt =====
-- FidoAuth/pico-keys-sdk/src/fs/flash.c: a file is written as a whole, or cleared. The data of a
-- file is the address of its length, if it has data.
use key_wallet.Base.{
  ℕ, zero, suc, ◌+◌, ◌-◌, ◌/◌, ◌%◌, ◌^◌, min, Bool, not, ◌&&◌, ◌||◌, Option, none, some, ltb, leb,
  ◌==◌, if◌then◌else◌, List, length, replicate,
}
use key_wallet.Bytes.{Status, ok, no_memory, memory_fatal, null_param, exec_error}
use key_wallet.Flash.{
  extended_length, extended_length_size, legacy_length_size, length_size_of, Pool, Place,
  allocate_free_addr, is_done,
}
use key_wallet.Flash.Memory.{
  FlashMemory, flash_read_uint16, flash_read_uint32, flash_read_uintptr, flash_program_halfword,
  flash_program_word, flash_program_uintptr,
}

abbrev pub sector_size : ℕ
sector_size = 4096

abbrev pub sector : ℕ → ℕ
sector address = address / sector_size

module _ ⦃memory : FlashMemory⦄ where
  open memory use {Mem, read_byte, program_block, commit_sync}

  -- The flash, `last_base` and `num_files`
  pub record FlashState : Type 0 where
    pub mem : Mem
    pub last_base : ℕ
    pub num_files : ℕ

  unfoldable pub stored_length_size : ℕ → Mem → ℕ
  stored_length_size at m =
      if flash_read_uint16 at m == extended_length then extended_length_size else legacy_length_size

  unfoldable pub flash_data_size : ℕ → Mem → ℕ
  flash_data_size at m =
      let stored = flash_read_uint16 at m in
      if stored == extended_length then flash_read_uint32 (at + 2) m else stored

  -- `file_get_size`
  abbrev pub file_get_size : Option ℕ → Mem → ℕ
  file_get_size none m = 0
  file_get_size (some at) m = flash_data_size at m

  -- A step that is skipped after a failure.
  abbrev pub after_ok : Status × Mem → (Mem → Status × Mem) → Status × Mem
  after_ok done step = if is_done done.0 then step done.1 else done

  unfoldable pub write_file_length : ℕ → ℕ → Mem → Status × Mem
  write_file_length at len m =
      if leb extended_length len
      then after_ok (flash_program_halfword at extended_length m) (flash_program_word (at + 2) len)
      else flash_program_halfword at (len % 2 ^ 16) m

  -- The loop of `flash_clear_file`, on the bytes that are left; a round clears at most 256 of them.
  unfoldable pub clear_payload : ℕ → ℕ → ℕ → Mem → Status × Mem
  clear_payload zero addr left m = (ok, m)
  clear_payload (suc rounds) addr left m =
      let chunk = min 256 left in
      let done = program_block addr (replicate chunk 0) m in
      let rest = clear_payload rounds (addr + chunk) (left - chunk) done.1 in
      if left == 0 then (ok, m) else if is_done done.0 then rest else (exec_error, done.1)

  -- The record is taken out of the list of its pool; the statuses of these writes are not looked at.
  unfoldable pub unlink : ℕ → ℕ → ℕ → Mem → Mem
  unlink base prev next m =
      let back = if ltb 0 next then (flash_program_uintptr (next + 4) prev m).1 else m in
      (flash_program_uintptr (base + 4) 0 (flash_program_uintptr base 0 back).1).1

  abbrev pub one_file_less : ℕ → ℕ
  one_file_less n = if ltb 0 n then n - 1 else n

  unfoldable pub flash_clear_file : Option ℕ → FlashState → Status × (Option ℕ × FlashState)
  flash_clear_file none f = (ok, (none, f))
  flash_clear_file (some at) f =
      let len = flash_data_size at f.mem in
      let payload = at + stored_length_size at f.mem in
      let base = at - 10 in
      let prev = flash_read_uintptr (base + 4) f.mem in
      let next = flash_read_uintptr base f.mem in
      let skipped = (flash_program_uintptr prev next f.mem).1 in
      let shortened = (flash_program_halfword at 0 skipped).1 in
      let cleared = clear_payload (suc len) payload len shortened in
      if is_done cleared.0
      then (
        ok,
        (
          none,
          record f { mem = unlink base prev next cleared.1; num_files = one_file_less f.num_files },
        ),
      )
      else (exec_error, (some at, record f { mem = cleared.1 }))

  unfoldable pub sync_if : Bool → Status × Mem → Status × Mem
  sync_if test done =
      if is_done done.0 && test
      then (let (synced, m) = commit_sync done.1 in (if synced then ok else memory_fatal, m))
      else done

  -- The fid, the length and the payload of a new record.
  unfoldable pub write_new_record : ℕ → ℕ → List ℕ → Mem → Status × Mem
  write_new_record addr fid bytes m =
      let fid_done = flash_program_halfword (addr + 8) fid m in
      let length_done = after_ok fid_done (write_file_length (addr + 10) (length bytes)) in
      if ltb 0 (length bytes)
      then after_ok length_done (program_block (addr + 10 + length_size_of (length bytes)) bytes)
      else length_done

  -- The record is linked once it is complete, and durable where the link is in another sector.
  unfoldable pub publish : Place → Status × Mem → Status × Mem
  publish place written =
      after_ok (sync_if (not (sector place.publish_at == sector place.address)) written)
        (flash_program_uintptr place.publish_at place.address)

  -- Whether the new data goes where the old data is.
  unfoldable pub fits_in_place : ℕ → List ℕ → Mem → Bool
  fits_in_place at bytes m =
      leb (length bytes) (flash_data_size at m)
      && ((flash_read_uint16 at m == extended_length) || ltb (length bytes) extended_length)

  unfoldable pub write_in_place : ℕ → List ℕ → Mem → Status × Mem
  write_in_place at bytes m =
      let extended = flash_read_uint16 at m == extended_length in
      let payload = at + stored_length_size at m in
      let long = ltb sector_size (flash_data_size at m) in
      let length_done =
        if extended
        then flash_program_word (at + 2) (length bytes) m
        else flash_program_halfword at (length bytes % 2 ^ 16) m in
      sync_if long (
        if ltb 0 (length bytes)
        then after_ok length_done (program_block payload bytes)
        else length_done)

  -- The end of a write, once the new record is linked: the old one is cleared.
  unfoldable pub drop_old : Option ℕ → ℕ → ℕ → FlashState → Status × (Option ℕ × FlashState)
  drop_old none at size f = (ok, (some at, f))
  drop_old (some old) at size f =
      let cleared = flash_clear_file (some old) f in
      if is_done cleared.0
      then (let synced =
            sync_if (ltb sector_size (10 + length_size_of size + size)) (ok, cleared.1.1.mem) in
          (
            synced.0,
            (
              if is_done synced.0 then some at else some old,
              record (cleared.1.1) { mem = synced.1 },
            ),
          ))
      else (memory_fatal, (some old, (flash_clear_file (some at) cleared.1.1).1.1))

  unfoldable pub write_at :
      Place → Option ℕ → ℕ → List ℕ → FlashState → Status × (Option ℕ × FlashState)
  write_at place old fid bytes f =
      let linked = publish place (write_new_record place.address fid bytes f.mem) in
      let g : FlashState = record {
        mem = linked.1;
        last_base = min place.address f.last_base;
        num_files = (f.num_files + 1) % 2 ^ 32;
      } in
      if is_done linked.0
      then drop_old old (place.address + 10) (length bytes) g
      else (linked.0, (old, (flash_clear_file (some (place.address + 10)) g).1.1))

  unfoldable pub write_new :
      Pool → Option ℕ → ℕ → List ℕ → FlashState → Status × (Option ℕ × FlashState)
  write_new pool old fid bytes f =
      let (place, m) = allocate_free_addr pool (length bytes) f.mem in
      if place.address == 0
      then (no_memory, (old, record f { mem = m }))
      else write_at place old fid bytes (record f { mem = m })

  -- `flash_write_data_to_file`, in the pool of the type of the file.
  unfoldable pub flash_write_data_to_file :
      Pool → Option ℕ → ℕ → List ℕ → FlashState → Status × (Option ℕ × FlashState)
  flash_write_data_to_file pool old fid bytes f =
      if ltb (2 ^ 32 - 1) (length bytes) then (null_param, (old, f)) else elim old [
        | none ↦ write_new pool none fid bytes f
        | some at ↦
            if fits_in_place at bytes f.mem
            then (let (status, m) = write_in_place at bytes f.mem in
                (status, (some at, record f { mem = m })))
            else write_new pool (some at) fid bytes f
      ]
