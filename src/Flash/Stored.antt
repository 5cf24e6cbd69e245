-- ===== src/Flash/Stored.antt =====
-- FidoAuth/pico-keys-sdk/src/fs/flash.c: a file without data that is written.
use key_wallet.Base.{
  ℕ, ◌+◌, ◌^◌, ◌≤◌, ◌<◌, ◌≡◌, ◌⊎◌, inl, inr, refl, sym, ap, ◌∙◌, Bool, not, ◌&&◌, List, length,
  get_or, ◌==◌, Bool-cases, arith, ==_iff,
}
use key_wallet.Bytes.{Status, ok}
use key_wallet.Flash.{Place, is_done, length_size_of}
use key_wallet.Flash.Memory.{FlashMemory, IsMemory, flash_read_uintptr, flash_program_uintptr}
use key_wallet.Flash.Reads.{full_size-Agrees, read_uint32-Agrees, program_word-read}
use key_wallet.Flash.Links.{IsInserted}
use key_wallet.Flash.Walk.{done_cases}
use key_wallet.Flash.Write.{publish, sync_if, sector}
use key_wallet.Flash.Publish.{after_ok-split, IsOutside, wider, both, program_word-IsOutside}
use key_wallet.Flash.NewLinks.{HasLinks}
use key_wallet.Flash.Written.{IsWritten}

module _ ⦃memory : FlashMemory⦄ where
  open memory use {Mem, read_byte, program_block, commit_sync}

  abbrev Same : Mem → Mem → Type 0
  Same m n = (a : ℕ) → read_byte a n ≡ read_byte a m

  module _ (laws : IsMemory) where
    sync_if-Same : (test : Bool) (done : Status × Mem) → Same done.1 (sync_if test done).1
    unfolding sync_if
    sync_if-Same test (s, m) a = elim (Bool-cases (is_done s && test)) [
      | inl syncs ↦ rw syncs (laws.committed a m)
      | inr skips ↦ rw skips refl
    ]

    sync_if-ok : (test : Bool) (done : Status × Mem) → (sync_if test done).0 ≡ ok → done.0 ≡ ok
    unfolding sync_if
    sync_if-ok test (s, m) e = elim (done_cases s) [ inl fine ↦ fine | inr bad ↦ rw bad at e ]

    -- What a publication that succeeds leaves.
    pub publish_lem :
        (place : Place) (written : Status × Mem)
        → place.address < 2 ^ 32
        → (publish place written).0 ≡ ok
        → (written.0 ≡ ok)
          × ((flash_read_uintptr place.publish_at (publish place written).1 ≡ place.address)
              × IsOutside place.publish_at
                  (place.publish_at + 4)
                  written.1
                  (publish place written).1)
    unfolding publish
    publish_lem place written l e =
        let test = not (sector place.publish_at == sector place.address) in
        let synced = sync_if test written in
        let step = flash_program_uintptr place.publish_at place.address in
        let parts = after_ok-split synced step e in
        let fine : (step synced.1).0 ≡ ok = ap (λ (r : Status × Mem). r.0) (sym parts.1) ∙ e in
        let out : IsOutside place.publish_at (place.publish_at + 4) written.1 (step synced.1).1 =
          λ a t.
            program_word-IsOutside laws place.publish_at place.address synced.1 a t
            ∙ sync_if-Same test written a in
        (
          sync_if-ok test written parts.0,
          rw parts.1 (program_word-read laws place.publish_at place.address synced.1 l fine, out),
        )

    -- A record that is placed, written and published is inserted.
    pub inserted_lem :
        (base addr next fid : ℕ) (bytes : List ℕ) (m m1 m2 n : Mem)
        → HasLinks m m1 addr base next
        → IsWritten m1 m2 addr fid bytes
        → flash_read_uintptr base n ≡ addr
        → IsOutside base (base + 4) m2 n
        → addr + (10 + length_size_of (length bytes) + length bytes) ≡ base
        → (0 < next → next + 12 ≤ addr)
        → IsInserted m n base addr next
    inserted_lem base addr next fid bytes m m1 m2 n h w link out ends below =
        let late : IsOutside (addr + 8) (base + 4) m1 n =
          both (addr + 8) (base + 4) m1 m2 n
            (wider (addr + 8) (addr + 10 + length_size_of (length bytes) + length bytes) (addr + 8)
              (base + 4) m1 m2 (omega arith) (omega (arith, ends)) w.rest)
            (wider base (base + 4) (addr + 8) (base + 4) m2 n (omega (arith, ends)) (omega arith)
              out) in
        record {
          link = link;
          new_link =
              read_uint32-Agrees addr m1 n (λ a l u. late a (inl (omega (arith, u)))) ∙ h.new_link;
          new_back =
              read_uint32-Agrees (addr + 4) m1 n (λ a l u. late a (inl (omega (arith, u))))
              ∙ h.new_back;
          next_back = λ p.
              read_uint32-Agrees (next + 4) m1 n (λ a l u. late a (inl (omega (arith, u, below p))))
              ∙ h.next_back p;
          fits =
              (let same =
                  full_size-Agrees addr m2 n
                    (λ a l u. out a (inl (omega (arith, u, w.size_read, ends)))) in
                omega (arith, same, w.size_read, ends));
          higher = λ a l. late a (inr l) ∙ h.rest a (inr (omega (arith, l, ends))) (far a l);
          lower = λ a p l.
              late a (inl (omega (arith, l, below p)))
              ∙ h.rest a (inl (omega (arith, l, below p))) (inr (inl l));
          between = λ a l u. late a (inl (omega (arith, u))) ∙ h.rest a (inl u) (inr (inr l));
        }
      where
        far : (a : ℕ) → base + 4 ≤ a → (next ≡ 0) ⊎ ((a < next + 4) ⊎ (next + 8 ≤ a))
        far a l = elim (Bool-cases (next == 0)) [
          | inl z ↦ inl ((==_iff next 0).0 z)
          | inr p ↦ inr (inr (omega (arith, below (ground (arith, p)), l, ends)))
        ]

    -- The payload stays where it was written.
    pub payload_kept :
        (base addr fid : ℕ) (bytes : List ℕ) (m1 m2 n : Mem)
        → IsWritten m1 m2 addr fid bytes
        → IsOutside base (base + 4) m2 n
        → addr + (10 + length_size_of (length bytes) + length bytes) ≡ base
        → (i : ℕ) → i < length bytes
        → read_byte (addr + 10 + length_size_of (length bytes) + i) n ≡ get_or bytes i 0
    payload_kept base addr fid bytes m1 m2 n w out ends i l =
        out (addr + 10 + length_size_of (length bytes) + i) (inl (omega (arith, l, ends)))
        ∙ w.payload_read i l
