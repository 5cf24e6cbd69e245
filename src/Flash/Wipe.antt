-- ===== src/Flash/Wipe.antt =====
-- FidoAuth/pico-keys-sdk/src/fs/file.c: the zeros that `flash_clear_file` writes over a payload.
use key_wallet.Base.{
  ℕ, zero, suc, ◌+◌, ◌-◌, ◌≤◌, ◌<◌, ◌≡◌, inl, inr, refl, ap, ◌∙◌, min, All, get_or, replicate,
  length-replicate, ltb, ◌==◌, Bool-cases, arith, ==_iff,
}
use key_wallet.Bytes.{Status, ok, IsByte}
use key_wallet.Flash.Memory.{FlashMemory, NeverFails, IsMemory}
use key_wallet.Flash.Publish.{IsOutside, wider, both}
use key_wallet.Flash.Write.{clear_payload}

replicate-IsByte : (n : ℕ) → All IsByte (replicate n 0)
replicate-IsByte zero = tt
replicate-IsByte (suc n) = (omega arith, replicate-IsByte n)

get_or-replicate : (n i : ℕ) → ◌≡◌ {A = ℕ} (get_or (replicate n 0) i 0) 0
get_or-replicate zero i = refl
get_or-replicate (suc n) zero = refl
get_or-replicate (suc n) (suc i) = get_or-replicate n i

module _ ⦃memory : FlashMemory⦄ where
  open memory use {Mem, read_byte, program_block}

  -- The loop ended well, wrote inside the range only, and left zeros in it.
  pub record IsWiped (m : Mem) (addr left : ℕ) (done : Status × Mem) : Type 0 where
    pub fine : done.0 ≡ ok
    pub inside : IsOutside addr (addr + left) m done.1
    pub zeros : (i : ℕ) → i < left → read_byte (addr + i) done.1 ≡ 0

  module _ (laws : IsMemory) (never_fails : NeverFails) where
    chunk-IsWiped :
        (addr chunk left : ℕ) (m : Mem) (rest : Status × Mem)
        → 0 < chunk
        → chunk ≤ left
        → IsWiped (program_block addr (replicate chunk 0) m).1 (addr + chunk) (left - chunk) rest
        → IsWiped m addr left rest
    chunk-IsWiped addr chunk left m rest p l w =
        let n = (program_block addr (replicate chunk 0) m).1 in
        let size = length-replicate {A = ℕ} chunk 0 in
        record {
          fine = w.fine;
          inside =
              both addr (addr + left) m n rest.1
                (λ a t.
                  laws.outside addr a (replicate chunk 0) m
                    (elim t [ inl low ↦ inl low | inr high ↦ inr (omega (arith, high, size, l)) ]))
                (wider (addr + chunk) (addr + chunk + (left - chunk)) addr (addr + left) n rest.1
                  (omega arith) (omega (arith, l)) w.inside);
          zeros = λ i u. elim (Bool-cases (ltb i chunk)) [
            | inl early ↦
                w.inside (addr + i) (inl (ground (arith, early)))
                ∙ laws.written addr i (replicate chunk 0) m
                    (never_fails addr (replicate chunk 0) m (omega (arith, p, size)))
                    (replicate-IsByte chunk) (ground (arith, early, size))
                ∙ get_or-replicate chunk i
            | inr late ↦
                (let same : addr + i ≡ addr + chunk + (i - chunk) = ground (arith, late) in
                  ap (λ (a : ℕ). read_byte a rest.1) same
                  ∙ w.zeros (i - chunk) (ground (arith, late, u)))
          ];
        }

    pub clear_payload-IsWiped :
        (rounds addr left : ℕ) (m : Mem)
        → left < rounds
        → IsWiped m addr left (clear_payload rounds addr left m)
    unfolding clear_payload
    clear_payload-IsWiped zero addr left m l = absurd (omega (arith, l))
    clear_payload-IsWiped (suc rounds) addr left m l = elim (Bool-cases (left == 0)) [
      | inl none_left ↦
          (let e = (==_iff left 0).0 none_left in
            rw none_left (record {
              fine = refl;
              inside = λ a t. refl;
              zeros = λ i u. absurd (omega (arith, u, e));
            }))
      | inr some_left ↦
          (let p : 0 < left = ground (arith, some_left) in
            let size = length-replicate {A = ℕ} (min 256 left) 0 in
            let fine = never_fails addr (replicate (min 256 left) 0) m (omega (arith, p, size)) in
            rw (some_left, fine)
              (chunk-IsWiped addr (min 256 left) left m
                (clear_payload rounds (addr + min 256 left) (left - min 256 left)
                  (program_block addr (replicate (min 256 left) 0) m).1)
                (omega (arith, p)) (omega arith)
                (clear_payload-IsWiped rounds (addr + min 256 left) (left - min 256 left)
                  (program_block addr (replicate (min 256 left) 0) m).1 (omega (arith, p, l)))))
    ]
