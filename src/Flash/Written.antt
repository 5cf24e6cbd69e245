-- ===== src/Flash/Written.antt =====
-- FidoAuth/pico-keys-sdk/src/fs/flash.c: what is read of a record that was written.
use key_wallet.Base.{
  ℕ, ◌+◌, ◌^◌, ◌≤◌, ◌<◌, ◌≡◌, inl, inr, sym, ap, ◌∙◌, false, List, All, length, get_or, ltb, leb,
  Bool-cases, arith,
}
use key_wallet.Bytes.{Status, ok, IsByte}
use key_wallet.Flash.{extended_length, length_size_of, record_length_size}
use key_wallet.Flash.Memory.{FlashMemory, IsMemory, flash_read_uint16, flash_program_halfword}
use key_wallet.Flash.Reads.{
  full_size, full_size-least, full_size-same, record_length_size-Agrees, read_uint16-Agrees,
}
use key_wallet.Flash.Write.{after_ok, write_file_length, write_new_record}
use key_wallet.Flash.Publish.{
  after_ok-split, IsOutside, IsOutside-Agrees, wider, both, program_halfword-IsOutside,
  program_halfword-read, write_file_length-IsOutside, write_file_length-full,
}

pub length_size_of-least : (len : ℕ) → 2 ≤ length_size_of len
length_size_of-least len = elim (Bool-cases (leb extended_length len)) [
  | inl long ↦ rw long (omega arith)
  | inr short ↦ rw short (omega arith)
]

module _ ⦃memory : FlashMemory⦄ where
  open memory use {Mem, read_byte, program_block, commit_sync}

  -- A record is complete: its identifier, its size and its payload are there, and nothing else changed.
  pub record IsWritten (m n : Mem) (addr fid : ℕ) (bytes : List ℕ) : Type 0 where
    pub fid_read : flash_read_uint16 (addr + 8) n ≡ fid
    pub length_read : record_length_size addr n ≡ length_size_of (length bytes)
    pub size_read : full_size addr n ≡ 10 + length_size_of (length bytes) + length bytes
    pub payload_read :
        (i : ℕ)
        → i < length bytes
        → read_byte (addr + 10 + length_size_of (length bytes) + i) n ≡ get_or bytes i 0
    pub rest : IsOutside (addr + 8) (addr + 10 + length_size_of (length bytes) + length bytes) m n

  -- The identifier and the length are there.
  record IsHeaded (m n : Mem) (addr fid len : ℕ) : Type 0 where
    fid_read : flash_read_uint16 (addr + 8) n ≡ fid
    length_read : record_length_size addr n ≡ length_size_of len
    size_read : full_size addr n ≡ 10 + length_size_of len + len
    rest : IsOutside (addr + 8) (addr + 10 + length_size_of len) m n

  module _ (laws : IsMemory) where
    header_lem :
        (addr fid len : ℕ) (m : Mem)
        → fid < 2 ^ 16
        → len < 2 ^ 32
        → (after_ok (flash_program_halfword (addr + 8) fid m) (write_file_length (addr + 10) len)).0
          ≡ ok
        → IsHeaded m
            (after_ok
              (flash_program_halfword (addr + 8) fid m)
              (write_file_length (addr + 10) len)).1
            addr
            fid
            len
    header_lem addr fid len m lf ll e =
        let first = flash_program_halfword (addr + 8) fid m in
        let step = write_file_length (addr + 10) len in
        let parts = after_ok-split first step e in
        let fine : (step first.1).0 ≡ ok = ap (λ (r : Status × Mem). r.0) (sym parts.1) ∙ e in
        let out = write_file_length-IsOutside laws (addr + 10) len first.1 fine in
        let head : IsHeaded m (step first.1).1 addr fid len = record {
          fid_read =
              read_uint16-Agrees (addr + 8) first.1 (step first.1).1 (
                IsOutside-Agrees (addr + 10) (addr + 10 + length_size_of len) (addr + 8)
                  (addr + 8 + 2) first.1 (step first.1).1 out (inl (omega arith)))
              ∙ program_halfword-read laws (addr + 8) fid m lf parts.0;
          length_read = (write_file_length-full laws addr len first.1 ll fine).0;
          size_read = (write_file_length-full laws addr len first.1 ll fine).1;
          rest =
              both (addr + 8) (addr + 10 + length_size_of len) m first.1 (step first.1).1
                (wider (addr + 8) (addr + 8 + 2) (addr + 8) (addr + 10 + length_size_of len) m
                  first.1 (omega arith) (omega arith)
                  (program_halfword-IsOutside laws (addr + 8) fid m))
                (wider (addr + 10) (addr + 10 + length_size_of len) (addr + 8)
                  (addr + 10 + length_size_of len) first.1 (step first.1).1 (omega arith)
                  (omega arith) out);
        } in
        rw parts.1 head

    -- The payload goes behind the length.
    payload_lem :
        (addr fid : ℕ) (bytes : List ℕ) (m n : Mem)
        → IsHeaded m n addr fid (length bytes)
        → All IsByte bytes
        → (program_block (addr + 10 + length_size_of (length bytes)) bytes n).0 ≡ ok
        → IsWritten m
            (program_block (addr + 10 + length_size_of (length bytes)) bytes n).1
            addr
            fid
            bytes
    payload_lem addr fid bytes m n h are e =
        let at = addr + 10 + length_size_of (length bytes) in
        let o = (program_block at bytes n).1 in
        let out : IsOutside at (at + length bytes) n o = λ a t. laws.outside at a bytes n t in
        let least = full_size-least addr n in
        record {
          fid_read =
              read_uint16-Agrees (addr + 8) n o (
                IsOutside-Agrees at (at + length bytes) (addr + 8) (addr + 8 + 2) n o out
                  (inl (omega arith)))
              ∙ h.fid_read;
          length_read =
              record_length_size-Agrees addr n o (
                IsOutside-Agrees at (at + length bytes) (addr + 10) (addr + 12) n o out
                  (inl (omega (arith, length_size_of-least (length bytes)))))
              ∙ h.length_read;
          size_read =
              full_size-same addr n o (
                IsOutside-Agrees at (at + length bytes) (addr + 10)
                  (addr + 10 + record_length_size addr n) n o out
                  (inl (omega (arith, h.length_read))))
              ∙ h.size_read;
          payload_read = λ i l. laws.written at i bytes n e are l;
          rest =
              both (addr + 8) (at + length bytes) m n o
                (wider (addr + 8) at (addr + 8) (at + length bytes) m n (omega arith) (omega arith)
                  h.rest)
                (wider at (at + length bytes) (addr + 8) (at + length bytes) n o (omega arith)
                  (omega arith) out);
        }

    empty_lem :
        (addr fid : ℕ) (bytes : List ℕ) (m n : Mem)
        → ltb 0 (length bytes) ≡ false
        → IsHeaded m n addr fid (length bytes)
        → IsWritten m n addr fid bytes
    empty_lem addr fid bytes m n e h = record {
      fid_read = h.fid_read;
      length_read = h.length_read;
      size_read = h.size_read;
      payload_read = λ i l. absurd (ground (arith, e, l));
      rest =
          wider (addr + 8) (addr + 10 + length_size_of (length bytes)) (addr + 8)
            (addr + 10 + length_size_of (length bytes) + length bytes) m n (omega arith)
            (omega arith) h.rest;
    }

    pub write_new_record-IsWritten :
        (addr fid : ℕ) (bytes : List ℕ) (m : Mem)
        → fid < 2 ^ 16
        → length bytes < 2 ^ 32
        → All IsByte bytes
        → (write_new_record addr fid bytes m).0 ≡ ok
        → IsWritten m (write_new_record addr fid bytes m).1 addr fid bytes
    unfolding write_new_record
    write_new_record-IsWritten addr fid bytes m lf ll are e =
        elim (Bool-cases (ltb 0 (length bytes))) [
          | inl filled ↦
              (let header =
                  after_ok (flash_program_halfword (addr + 8) fid m)
                    (write_file_length (addr + 10) (length bytes)) in
                let step = program_block (addr + 10 + length_size_of (length bytes)) bytes in
                let parts = after_ok-split header step (rw filled at e) in
                let fine : (step header.1).0 ≡ ok =
                  ap (λ (r : Status × Mem). r.0) (sym parts.1) ∙ (rw filled at e) in
                rw (filled, parts.1)
                  (payload_lem addr fid bytes m header.1
                    (header_lem addr fid (length bytes) m lf ll parts.0) are fine))
          | inr empty ↦ rw empty (
              empty_lem addr fid bytes m
                (after_ok (flash_program_halfword (addr + 8) fid m)
                  (write_file_length (addr + 10) (length bytes))).1
                empty (header_lem addr fid (length bytes) m lf ll (rw empty at e)))
        ]
