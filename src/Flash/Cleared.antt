-- ===== src/Flash/Cleared.antt =====
-- FidoAuth/pico-keys-sdk/src/fs/file.c: `flash_clear_file` on a file whose record is in a pool.
use key_wallet.Base.{
  ℕ, suc, ◌+◌, ◌-◌, ◌^◌, ◌≤◌, ◌<◌, ◌≡◌, ◌⊎◌, inl, inr, refl, ◌∙◌, true, false, none, some, List,
  All, ltb, Bool-cases, arith,
}
use key_wallet.Bytes.{Status, ok}
use key_wallet.Flash.{record_length_size, record_payload_size}
use key_wallet.Flash.Memory.{
  FlashMemory, NeverFails, IsMemory, flash_read_uintptr, flash_program_halfword, flash_program_word,
  flash_program_uintptr, bytes_of_32,
}
use key_wallet.Flash.Reads.{full_size, full_size-least, read_uint32-Agrees, program_word-read}
use key_wallet.Flash.Links.{IsLinked}
use key_wallet.Flash.Walk.{IsKept}
use key_wallet.Flash.Publish.{
  IsOutside, wider, both, program_halfword-IsOutside, program_word-IsOutside,
}
use key_wallet.Flash.Write.{
  FlashState, clear_payload, unlink, flash_clear_file, flash_data_size, stored_length_size,
}
use key_wallet.Flash.Wipe.{clear_payload-IsWiped}
use key_wallet.Flash.Unlinked.{remove_address, HasAddress, IsRemoved, HasAddress-IsAt}

module _ ⦃memory : FlashMemory⦄ where
  open memory use {Mem, read_byte, program_block}

  -- The record is out of the list, its payload is zero, and the others keep theirs.
  pub record IsCleared (m n : Mem) (start end : ℕ) (bs : List ℕ) (addr : ℕ) : Type 0 where
    pub linked : IsLinked n start end (remove_address addr bs)
    pub kept : All (λ b. IsKept m n b) (remove_address addr bs)
    pub zeros :
        (i : ℕ)
        → i < record_payload_size addr m
        → read_byte (addr + 10 + record_length_size addr m + i) n ≡ 0

  data_size-payload :
      (addr : ℕ) (m : Mem) → flash_data_size (addr + 10) m ≡ record_payload_size addr m
  unfolding flash_data_size record_payload_size
  data_size-payload addr m = let same : addr + 10 + 2 ≡ addr + 12 = omega arith in rw same refl

  length_size-record :
      (addr : ℕ) (m : Mem) → stored_length_size (addr + 10) m ≡ record_length_size addr m
  unfolding stored_length_size record_length_size
  length_size-record addr m = refl

  -- The back link of the next record is set, and the links of this one are cleared.
  record IsUnlinked (m n : Mem) (addr top next : ℕ) : Type 0 where
    back : 0 < next → flash_read_uintptr (next + 4) n ≡ top
    rest :
        (a : ℕ)
        → (a < addr) ⊎ (addr + 8 ≤ a)
        → (next ≡ 0) ⊎ ((a < next + 4) ⊎ (next + 8 ≤ a))
        → read_byte a n ≡ read_byte a m

  abbrev links_cleared : ℕ → Mem → Mem
  links_cleared addr m = (flash_program_uintptr (addr + 4) 0 (flash_program_uintptr addr 0 m).1).1

  unlink-more :
      (addr top next : ℕ) (m : Mem)
      → ltb 0 next ≡ true
      → unlink addr top next m ≡ links_cleared addr (flash_program_uintptr (next + 4) top m).1
  unfolding unlink
  unlink-more addr top next m e = rw (unlink, e) refl

  unlink-last :
      (addr top next : ℕ) (m : Mem)
      → ltb 0 next ≡ false
      → unlink addr top next m ≡ links_cleared addr m
  unfolding unlink
  unlink-last addr top next m e = rw (unlink, e) refl

  apart :
      (addr next a : ℕ)
      → (0 < next → next + 12 ≤ addr)
      → addr ≤ a
      → (next ≡ 0) ⊎ ((a < next + 4) ⊎ (next + 8 ≤ a))
  apart addr next a below l = elim (Bool-cases (ltb 0 next)) [
    | inl more ↦ inr (inr (omega (arith, l, below (ground (arith, more)))))
    | inr last ↦ inl (ground (arith, last))
  ]

  below_end :
      (addr next end : ℕ)
      → (0 < next → next + 12 ≤ addr)
      → addr ≤ end
      → end < 2 ^ 32
      → next < 2 ^ 32
  below_end addr next end below l w = elim (Bool-cases (ltb 0 next)) [
    | inl more ↦ omega (arith, below (ground (arith, more)), l, w)
    | inr last ↦ ground (arith, last)
  ]

  -- The memory after the link to the record was changed, and its length and payload cleared.
  abbrev wiped : ℕ → ℕ → ℕ → Mem → Status × Mem
  wiped addr top next m =
      let len = record_payload_size addr m in
      clear_payload (suc len) (addr + 10 + record_length_size addr m) len
        (flash_program_halfword (addr + 10) 0 (flash_program_uintptr top next m).1).1

  module _ (laws : IsMemory) (never_fails : NeverFails) where
    word_ok : (a v : ℕ) (m : Mem) → (flash_program_word a v m).0 ≡ ok
    unfolding flash_program_word
    word_ok a v m = never_fails a (bytes_of_32 v) m (omega arith)

    links_cleared-IsOutside :
        (addr : ℕ) (m : Mem) → IsOutside addr (addr + 8) m (links_cleared addr m)
    links_cleared-IsOutside addr m =
        let n = (flash_program_uintptr addr 0 m).1 in
        both addr (addr + 8) m n (links_cleared addr m)
          (wider addr (addr + 4) addr (addr + 8) m n (omega arith) (omega arith)
            (program_word-IsOutside laws addr 0 m))
          (wider (addr + 4) (addr + 4 + 4) addr (addr + 8) n (links_cleared addr m) (omega arith)
            (omega arith) (program_word-IsOutside laws (addr + 4) 0 n))

    backed-IsUnlinked :
        (addr top next : ℕ) (m : Mem)
        → top < 2 ^ 32
        → 0 < next
        → next + 12 ≤ addr
        → IsUnlinked m (links_cleared addr (flash_program_uintptr (next + 4) top m).1) addr top next
    backed-IsUnlinked addr top next m w p below =
        let n = (flash_program_uintptr (next + 4) top m).1 in
        let out = program_word-IsOutside laws (next + 4) top m in
        record {
          back = λ q.
              read_uint32-Agrees (next + 4) n (links_cleared addr n)
                (λ a l u. links_cleared-IsOutside addr n a (inl (omega (arith, u, below))))
              ∙ program_word-read laws (next + 4) top m w (word_ok (next + 4) top m);
          rest = λ a o t. links_cleared-IsOutside addr n a o ∙ elim t [
            | inl z ↦ absurd (omega (arith, z, p))
            | inr t ↦ elim t [ inl l ↦ out a (inl l) | inr u ↦ out a (inr (omega (arith, u))) ]
          ];
        }

    unlink-IsUnlinked :
        (addr top next : ℕ) (m : Mem)
        → top < 2 ^ 32
        → (0 < next → next + 12 ≤ addr)
        → IsUnlinked m (unlink addr top next m) addr top next
    unlink-IsUnlinked addr top next m w below = elim (Bool-cases (ltb 0 next)) [
      | inl more ↦
          (let p : 0 < next = ground (arith, more) in
            rw (unlink-more addr top next m more) (backed-IsUnlinked addr top next m w p (below p)))
      | inr last ↦ rw (unlink-last addr top next m last) (record {
        back = λ p. absurd (ground (arith, last, p));
        rest = λ a o t. links_cleared-IsOutside addr m a o;
      })
    ]

    -- The four parts of the function, one after the other.
    steps-IsRemoved :
        (addr top next full : ℕ) (m m1 m3 n : Mem)
        → IsOutside top (top + 4) m m1
        → flash_read_uintptr top m1 ≡ next
        → IsOutside (addr + 10) (addr + full) m1 m3
        → IsUnlinked m3 n addr top next
        → 12 ≤ full
        → addr + full ≤ top
        → (0 < next → next + 12 ≤ addr)
        → IsRemoved m n top addr next
    steps-IsRemoved addr top next full m m1 m3 n skip link wipe u least ends below = record {
      link =
          read_uint32-Agrees top m1 n (λ a lo hi.
            u.rest a (inr (omega (arith, lo, least, ends)))
              (apart addr next a below (omega (arith, lo, least, ends)))
            ∙ wipe a (inr (omega (arith, lo, ends))))
          ∙ link;
      back = u.back;
      higher = λ a l.
          u.rest a (inr (omega (arith, l, least, ends)))
            (apart addr next a below (omega (arith, l, least, ends)))
          ∙ wipe a (inr (omega (arith, l, ends)))
          ∙ skip a (inr l);
      lower = λ a p l.
          u.rest a (inl (omega (arith, l, below p))) (inr (inl l))
          ∙ wipe a (inl (omega (arith, l, below p)))
          ∙ skip a (inl (omega (arith, l, below p, ends)));
      between = λ a lo hi.
          u.rest a (inl hi) (inr (inr lo))
          ∙ wipe a (inl (omega (arith, hi)))
          ∙ skip a (inl (omega (arith, hi, ends)));
    }

    -- What the function does with the record at an address, between `top` and `next`.
    flash_clear_file_lem :
        (addr top next : ℕ) (f : FlashState)
        → flash_read_uintptr (addr + 4) f.mem ≡ top
        → flash_read_uintptr addr f.mem ≡ next
        → (wiped addr top next f.mem).0 ≡ ok
        → ((flash_clear_file (some (addr + 10)) f).0 ≡ ok)
          × (((flash_clear_file (some (addr + 10)) f).1.0 ≡ none)
              × ((flash_clear_file (some (addr + 10)) f).1.1.mem
                  ≡ unlink addr top next (wiped addr top next f.mem).1))
    unfolding flash_clear_file
    flash_clear_file_lem addr top next f back link fine =
        let base : addr + 10 - 10 ≡ addr = omega arith in
        let size = data_size-payload addr f.mem in
        let width = length_size-record addr f.mem in
        rw (base, back, link, size, width, fine) (refl, (refl, refl))

    -- In a memory that keeps its promises and in which no program operation of at least one byte
    -- fails, whose pool is a list of records below 2^32: clearing a file whose record is in the list
    -- ends with OK and leaves the file without data, the pool is the list without this record, every
    -- byte of the payload that it had is zero, and the other records keep their identifiers, lengths
    -- and payloads.
    pub flash_clear_file-IsCleared :
        (start end addr : ℕ) (bs : List ℕ) (f : FlashState)
        → IsLinked f.mem start end bs
        → end < 2 ^ 32
        → HasAddress addr bs
        → ((flash_clear_file (some (addr + 10)) f).0 ≡ ok)
          × (((flash_clear_file (some (addr + 10)) f).1.0 ≡ none)
              × IsCleared f.mem (flash_clear_file (some (addr + 10)) f).1.1.mem start end bs addr)
    flash_clear_file-IsCleared start end addr bs f l w h =
        let t = HasAddress-IsAt f.mem start end addr bs l h in
        let m = f.mem in
        let len = record_payload_size addr m in
        let full = full_size addr m in
        let least = full_size-least addr m in
        let payload = addr + 10 + record_length_size addr m in
        let m1 = (flash_program_uintptr t.top t.next m).1 in
        let m2 = (flash_program_halfword (addr + 10) 0 m1).1 in
        let wipe = clear_payload-IsWiped laws never_fails (suc len) payload len m2 (omega arith) in
        let m3 = (wiped addr t.top t.next m).1 in
        let parts = flash_clear_file_lem addr t.top t.next f t.entry.back t.next_link wipe.fine in
        let below : 0 < t.next → t.next + 12 ≤ addr =
          λ p. omega (arith, t.next_below p, full_size-least t.next m) in
        let unlinked = unlink-IsUnlinked addr t.top t.next m3 (omega (arith, t.under, w)) below in
        let small : t.next < 2 ^ 32 =
          below_end addr t.next end below (omega (arith, t.entry.below, t.under)) w in
        let link = program_word-read laws t.top t.next m small (word_ok t.top t.next m) in
        let inner : IsOutside (addr + 10) (addr + full) m1 m3 =
          both (addr + 10) (addr + full) m1 m2 m3
            (wider (addr + 10) (addr + 10 + 2) (addr + 10) (addr + full) m1 m2 (omega arith)
              (omega (arith, least)) (program_halfword-IsOutside laws (addr + 10) 0 m1))
            (wider payload (payload + len) (addr + 10) (addr + full) m2 m3 (omega arith)
              (omega arith) wipe.inside) in
        let removed =
          steps-IsRemoved addr t.top t.next full m m1 m3 (unlink addr t.top t.next m3)
            (program_word-IsOutside laws t.top t.next m) link inner unlinked least t.entry.below
            below in
        let left = t.removes (unlink addr t.top t.next m3) removed in
        let cleared : IsCleared m (unlink addr t.top t.next m3) start end bs addr = record {
          linked = left.0;
          kept = left.1;
          zeros = λ i u.
              unlinked.rest (payload + i) (inr (omega arith))
                (apart addr t.next (payload + i) below (omega arith))
              ∙ wipe.zeros i u;
        } in
        (parts.0, (parts.1.0, rw parts.1.1 cleared))
