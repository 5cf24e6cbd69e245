-- ===== src/Container/Sealed.antt =====
-- FidoAuth/pico-keys-sdk/src/fs/object_container.c: records that are sealed and opened.
use key_wallet.Base.{
  ℕ, ◌+◌, ◌^◌, ◌≤◌, ◌<◌, ◌≡◌, ◌≢◌, Bool-cases, inl, inr, refl, sym, ap, ◌∙◌, Bool, true, false,
  ◌&&◌, List, ◌++◌, length, leb, ◌==◌, arith, ==_iff,
}
use key_wallet.Bytes.{Status, wrong_length}
use key_wallet.Objects.Storage.{Outcome, failed, done, ◌>>=◌, ◌>>◌, check}
use key_wallet.Txn.Frame.{>>=-eq-done}
use key_wallet.Container.Records.{
  Manifest, Identity, Protector, core_valid, sealed_header, record_header_build, identity_of,
  aad_of, identity_build, nonce_of, record_seal, record_unseal,
}
use key_wallet.Container.Headers.{
  IsDescriptor, record_header_parse-sealed, sealed_nonce, stored_part, tag_part,
}

-- A protector opens what it sealed, and its tags have 16 bytes.
pub record IsProtector (p : Protector) : Type 0 where
  pub opens :
      (i : Identity) (nonce aad plaintext stored tag : List ℕ)
      → p.seal i nonce aad plaintext ≡ done (stored, tag)
      → p.unseal i nonce aad stored tag ≡ done plaintext
  pub tag_length :
      (i : Identity) (nonce aad plaintext stored tag : List ℕ)
      → p.seal i nonce aad plaintext ≡ done (stored, tag)
      → length tag ≡ 16

-- What a successful sealing went through.
record Sealing (m : Manifest) (hash : List ℕ) (p : Protector) (plaintext r : List ℕ) : Type 0 where
  there : m.has_object ≡ true
  logical : length plaintext ≡ m.object.logical_size
  whole : length plaintext ≡ m.object.stored_size
  small : length plaintext + 56 < 2 ^ 32
  valid : core_valid m.object ≡ true
  out : List ℕ × List ℕ
  sealed_by :
      p.seal
        (identity_of m hash)
        (nonce_of (sealed_header m.object))
        (aad_of (identity_of m hash))
        plaintext
      ≡ done out
  stored_size : length out.0 ≡ length plaintext
  bytes : sealed_header m.object ++ (out.0 ++ out.1) ≡ r

failed_done : {e : Status} {b : List ℕ} → failed e ≢ done b
failed_done h = cc

abbrev bytes_or : List ℕ → Outcome (List ℕ) → List ℕ
bytes_or d (failed e) = d
bytes_or d (done b) = b

done_bytes : {a b : List ℕ} → done a ≡ done b → a ≡ b
done_bytes {a} e = ap (λ (o : Outcome (List ℕ)). bytes_or a o) e

three_true :
    (a : Bool) (b c d : ℕ) → (a && (b == c) && (b == d)) ≡ true → (a ≡ true) × (b ≡ c) × (b ≡ d)
three_true a b c d h = ground arith

room_small :
    (n room : ℕ) → (leb (40 + n + 16) 0xffffffff && leb (40 + n + 16) room) ≡ true → n + 56 < 2 ^ 32
room_small n room h = ground arith

both_true : (a b : Bool) → (a && b) ≡ true → b ≡ true
both_true a b h = ground arith

check_then :
    {B : Type 0} (b : Bool) (e : Status) (k : Outcome B) {r : B}
    → (check b e >> k) ≡ done r
    → (b ≡ true) × (k ≡ done r)
check_then true e k h = (refl, h)
check_then false e k h = cc

-- The part of `record_seal` behind its tests.
seal_rest : Manifest → List ℕ → Protector → List ℕ → Outcome (List ℕ)
seal_rest m hash p plaintext = do
  out ←
      p.seal (identity_of m hash) (nonce_of (sealed_header m.object)) (aad_of (identity_of m hash))
        plaintext
  check (length out.0 == length plaintext) wrong_length
  done (sealed_header m.object ++ (out.0 ++ out.1))

record_seal_tests :
    (m : Manifest) (hash : List ℕ) (p : Protector) (plaintext r : List ℕ) (room : ℕ)
    → record_seal m hash p plaintext room ≡ done r
    → (m.has_object ≡ true)
      × (length plaintext ≡ m.object.logical_size)
      × (length plaintext ≡ m.object.stored_size)
      × (length plaintext + 56 < 2 ^ 32)
      × (core_valid m.object ≡ true)
      × (seal_rest m hash p plaintext ≡ done r)
unfolding record_seal identity_build record_header_build seal_rest
record_seal_tests m hash p plaintext r room e =
    let s1 = check_then _ wrong_length _ e in
    let sizes =
      three_true m.has_object (length plaintext) m.object.logical_size m.object.stored_size s1.0 in
    let s2 = check_then _ wrong_length _ s1.1 in
    elim (Bool-cases (core_valid m.object)) [
      | inl good ↦ (
        sizes.0,
        sizes.1,
        sizes.2,
        room_small (length plaintext) room s2.0,
        good,
        rw (sizes.0, good) at s2.1,
      )
      | inr bad ↦ absurd (failed_done (rw (sizes.0, bad) at s2.1))
    ]

record_seal-done :
    (m : Manifest) (hash : List ℕ) (p : Protector) (plaintext r : List ℕ) (room : ℕ)
    → record_seal m hash p plaintext room ≡ done r
    → Sealing m hash p plaintext r
unfolding seal_rest
record_seal-done m hash p plaintext r room e =
    let t = record_seal_tests m hash p plaintext r room e in
    let s =
      >>=-eq-done
        (p.seal (identity_of m hash) (nonce_of (sealed_header m.object))
          (aad_of (identity_of m hash)) plaintext)
        (λ out.
          check (length out.0 == length plaintext) wrong_length
          >> done (sealed_header m.object ++ (out.0 ++ out.1)))
        t.5 in
    let c = check_then _ wrong_length _ s.2 in
    record {
      there = t.0;
      logical = t.1;
      whole = t.2;
      small = t.3;
      valid = t.4;
      out = s.0;
      sealed_by = s.1;
      stored_size = (==_iff (length s.0.0) (length plaintext)).0 c.0;
      bytes = done_bytes c.1;
    }

-- A record that was sealed, under a descriptor with fields of their widths and by a protector that
-- opens what it seals, is unsealed to the plaintext, where there is room for it.
pub record_unseal-seal :
    (m : Manifest) (hash : List ℕ) (p : Protector) (plaintext r : List ℕ) (room capacity : ℕ)
    → IsProtector p
    → IsDescriptor m.object
    → record_seal m hash p plaintext room ≡ done r
    → length plaintext ≤ capacity
    → record_unseal m hash p r capacity ≡ done plaintext
unfolding record_unseal identity_build
record_unseal-seal m hash p plaintext r room capacity law w e fits =
    let x = record_seal-done m hash p plaintext r room e in
    let o = m.object in
    let size : length x.out.0 ≡ o.stored_size = x.stored_size ∙ x.whole in
    let tag_size =
      law.tag_length (identity_of m hash) (nonce_of (sealed_header o)) (aad_of (identity_of m hash))
        plaintext x.out.0 x.out.1 x.sealed_by in
    let enough : leb o.logical_size capacity ≡ true = ground (arith, x.logical, fits) in
    let same : (o.logical_size == o.stored_size) ≡ true = ground (arith, x.logical, x.whole) in
    let parsed =
      record_header_parse-sealed o x.out.0 x.out.1 size tag_size w x.valid
        (omega (arith, x.small, x.whole)) in
    let opened =
      law.opens (identity_of m hash) (nonce_of (sealed_header o)) (aad_of (identity_of m hash))
        plaintext x.out.0 x.out.1 x.sealed_by in
    let whole : (length plaintext == o.logical_size) ≡ true = ground (arith, x.logical) in
    rw
      (
        sym x.bytes,
        x.there,
        enough,
        same,
        parsed,
        x.valid,
        sealed_nonce o (x.out.0 ++ x.out.1),
        stored_part o x.out.0 x.out.1 size tag_size,
        tag_part o x.out.0 x.out.1 size tag_size,
        opened,
        whole,
      )
      refl
