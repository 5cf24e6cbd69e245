-- ===== src/Flash/NewFile.antt =====
-- FidoAuth/pico-keys-sdk/src/fs/flash.c: a file without data that is written, in its pool.
use key_wallet.Base.{
  ℕ, suc, ◌+◌, ◌-◌, ◌%◌, ◌^◌, ◌≤◌, ◌<◌, ◌≡◌, inl, inr, refl, ap, ◌∙◌, ◌||◌, none, some, List,
  length, get_or, ltb, ◌==◌, Bool-cases, arith,
}
use key_wallet.Bytes.{ok, IsByte}
use key_wallet.Flash.{Pool, Place, is_done, length_size_of, allocate_at, allocate_free_addr}
use key_wallet.Flash.Memory.{FlashMemory, IsMemory, flash_read_uint16}
use key_wallet.Flash.Reads.{full_size, full_size-least, full_size-Agrees, read_uint16-Agrees}
use key_wallet.Flash.Links.{insert_address, IsLinked}
use key_wallet.Flash.Walk.{done_cases, IsTaken, allocate_at-IsTaken}
use key_wallet.Flash.Write.{
  write_new_record, publish, FlashState, flash_write_data_to_file, write_new, write_at, drop_old,
}
use key_wallet.Flash.NewLinks.{link_new-HasLinks}
use key_wallet.Flash.Written.{write_new_record-IsWritten, length_size_of-least}
use key_wallet.Base.{All}
use key_wallet.Flash.{record_length_size, record_payload_size}
use key_wallet.Flash.Reads.{record_length_size-Agrees}
use key_wallet.Flash.Walk.{IsKept}
use key_wallet.Flash.Stored.{publish_lem, inserted_lem, payload_kept}

module _ ⦃memory : FlashMemory⦄ where
  open memory use {Mem, read_byte, program_block, commit_sync}

  -- A record of the pool that was not there: its fields, and the records that were there.
  pub record HasRecord (m n : Mem) (pool : Pool) (bs : List ℕ) (addr fid : ℕ) (bytes : List ℕ)
      : Type 0 where
    pub linked : IsLinked n pool.start pool.end (insert_address addr bs)
    pub fid_read : flash_read_uint16 (addr + 8) n ≡ fid
    pub size_read : record_payload_size addr n ≡ length bytes
    pub payload_read :
        (i : ℕ)
        → i < length bytes
        → read_byte (addr + 10 + record_length_size addr n + i) n ≡ get_or bytes i 0
    pub kept : All (λ b. IsKept m n b) bs

  -- A write without old data that succeeds linked its record.
  write_at_lem :
      (place : Place) (fid : ℕ) (bytes : List ℕ) (f : FlashState)
      → (write_at place none fid bytes f).0 ≡ ok
      → ((publish place (write_new_record place.address fid bytes f.mem)).0 ≡ ok)
        × (((write_at place none fid bytes f).1.0 ≡ some (place.address + 10))
            × ((write_at place none fid bytes f).1.1.mem
                ≡ (publish place (write_new_record place.address fid bytes f.mem)).1))
  unfolding write_at drop_old
  write_at_lem place fid bytes f e =
      elim (done_cases (publish place (write_new_record place.address fid bytes f.mem)).0) [
        | inl fine ↦ (fine, rw fine (refl, refl))
        | inr bad ↦ (let fine = rw bad at e in absurd (ground (arith, bad, ap is_done fine)))
      ]

  allocate-IsTaken :
      (pool : Pool) (size : ℕ) (bs : List ℕ) (m : Mem)
      → IsLinked m pool.start pool.end bs
      → pool.end < 2 ^ 32
      → 0 < (allocate_free_addr pool size m).0.address
      → IsTaken m pool.start
          (10 + length_size_of size + size)
          pool.end
          bs
          (allocate_free_addr pool size m).0
          (allocate_free_addr pool size m).1
  unfolding allocate_free_addr
  allocate-IsTaken pool size bs m l w p =
      let overhead = 10 + length_size_of size in
      elim (Bool-cases (
        ltb (2 ^ 32 - 1 - overhead) size
        || ltb ((pool.end + 2 ^ 32 - pool.start) % 2 ^ 32) (overhead + size))) [
          | inl refused ↦ absurd (omega (arith, rw refused at p))
          | inr fits ↦ rw fits (
              allocate_at-IsTaken (suc pool.end) pool.start (overhead + size) pool.end bs m
                (allocate_at (suc pool.end) pool.start (overhead + size) pool.end m).0
                (allocate_at (suc pool.end) pool.start (overhead + size) pool.end m).1 l w
                (omega arith) refl (rw fits at p))
        ]

  module _ (laws : IsMemory) where
    IsTaken-HasRecord :
        (pool : Pool) (fid : ℕ) (bytes bs : List ℕ) (m m1 : Mem) (place : Place)
        → pool.end < 2 ^ 32
        → fid < 2 ^ 16
        → All IsByte bytes
        → IsTaken m pool.start
            (10 + length_size_of (length bytes) + length bytes)
            pool.end
            bs
            place
            m1
        → (publish place (write_new_record place.address fid bytes m1)).0 ≡ ok
        → HasRecord m
            (publish place (write_new_record place.address fid bytes m1)).1
            pool
            bs
            place.address
            fid
            bytes
    IsTaken-HasRecord pool fid bytes bs m m1 place w lf are t e =
        let addr = place.address in
        let base = place.publish_at in
        let written = write_new_record addr fid bytes m1 in
        let n = (publish place written).1 in
        let two = length_size_of-least (length bytes) in
        let short : base < 2 ^ 32 = omega (arith, t.under, w) in
        let small : addr < 2 ^ 32 = omega (arith, t.fits, short) in
        let below : 0 < t.next → t.next + 12 ≤ addr =
          λ p. omega (arith, t.next_below p, full_size-least t.next m) in
        let links =
          link_new-HasLinks laws addr base t.next m m1 short (omega (arith, t.fits, two)) below
            t.wrote in
        let done = publish_lem laws place written small e in
        let record_written =
          write_new_record-IsWritten laws addr fid bytes m1 lf (omega (arith, t.fits, short)) are
            done.0 in
        let ends : addr + (10 + length_size_of (length bytes) + length bytes) ≡ base = t.fits in
        let inserted =
          inserted_lem laws base addr t.next fid bytes m m1 written.1 n links record_written
            done.1.0 done.1.1 ends below in
        let size_at_n : record_length_size addr n ≡ length_size_of (length bytes) =
          record_length_size-Agrees addr written.1 n
            (λ a l u. done.1.1 a (inl (omega (arith, u, t.fits, two))))
          ∙ record_written.length_read in
        let full_at_n : full_size addr n ≡ 10 + length_size_of (length bytes) + length bytes =
          full_size-Agrees addr written.1 n
            (λ a l u. done.1.1 a (inl (omega (arith, u, t.fits, record_written.size_read))))
          ∙ record_written.size_read in
        record {
          linked = t.inserts n inserted;
          fid_read =
              read_uint16-Agrees (addr + 8) written.1 n
                (λ a l u. done.1.1 a (inl (omega (arith, u, t.fits, two))))
              ∙ record_written.fid_read;
          size_read = omega (arith, full_at_n, size_at_n);
          payload_read = λ i l. rw size_at_n (
              payload_kept laws base addr fid bytes m1 written.1 n record_written done.1.1 ends i
                l);
          kept = t.keeps n inserted;
        }

    -- In a memory that keeps its promises, whose pool is a list of records below 2^32, a write of a
    -- file without data and with a 16-bit identifier, of bytes, that ends with OK: the file has its data in a
    -- record that was not among the records, the pool is the list of the records with this one in
    -- its place, the record is read back with the identifier, the length and the bytes, and the other
    -- records keep their identifiers, lengths and payloads.
    pub flash_write-HasRecord :
        (pool : Pool) (fid : ℕ) (bytes bs : List ℕ) (f : FlashState)
        → IsLinked f.mem pool.start pool.end bs
        → pool.end < 2 ^ 32
        → fid < 2 ^ 16
        → All IsByte bytes
        → (flash_write_data_to_file pool none fid bytes f).0 ≡ ok
        → (addr : ℕ) × (((flash_write_data_to_file pool none fid bytes f).1.0 ≡ some (addr + 10))
            × HasRecord f.mem
                (flash_write_data_to_file pool none fid bytes f).1.1.mem
                pool
                bs
                addr
                fid
                bytes)
    unfolding flash_write_data_to_file write_new
    flash_write-HasRecord pool fid bytes bs f l w lf are e =
        let taken = allocate_free_addr pool (length bytes) f.mem in
        let g : FlashState = record f { mem = taken.1 } in
        elim (Bool-cases (ltb (2 ^ 32 - 1) (length bytes))) [
          | inl long ↦ absurd (ground (arith, rw long at e))
          | inr short ↦ elim (Bool-cases (taken.0.address == 0)) [
            | inl none_free ↦ absurd (ground (arith, rw (short, none_free) at e))
            | inr free ↦
                (let wrote = write_at_lem taken.0 fid bytes g (rw (short, free) at e) in
                  let place =
                    allocate-IsTaken pool (length bytes) bs f.mem l w (ground (arith, free)) in
                  let stored =
                    IsTaken-HasRecord pool fid bytes bs f.mem taken.1 taken.0 w lf are place
                      wrote.0 in
                  rw (short, free) (taken.0.address, (wrote.1.0, rw wrote.1.1 stored)))
          ]
        ]
