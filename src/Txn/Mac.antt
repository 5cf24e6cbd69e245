-- ===== src/Txn/Mac.antt =====
-- FidoAuth/pico-keys-sdk/src/fs/object_store_txn.c: the tags, their comparison, and the authenticator
-- as a message authentication code over the bytes it was fed.
use key_wallet.Base.{
  take-append-drop, ℕ, zero, suc, ◌+◌, ◌-◌, ◌≤◌, ◌≡◌, ◌↔◌, refl, sym, ap, ◌∙◌, true, List, [], ◌∷◌,
  ◌++◌, length, take, drop, min, bit_or, bit_xor, ==_iff, append_assoc, append-nil, arith,
  drop-drop,
}
use key_wallet.Base.Bits.{bit_or-eq-zero, bit_xor-eq-zero, bit_xor_self}
use key_wallet.Objects.Storage.{Files, done}
use key_wallet.Txn.{
  Authenticator, auth_buffer, absorb, auth_record, tag_difference, tag_equal, update_some,
  record_header_size, read_chunk_size,
}

difference_sound :
    (d : ℕ) (a b : List ℕ) → length a ≡ length b → tag_difference d a b ≡ 0 → (d ≡ 0) × (a ≡ b)
unfolding tag_difference
difference_sound d [] [] e h = (h, refl)
difference_sound d [] (y ∷ b) e h = absurd (omega arith)
difference_sound d (x ∷ a) [] e h = absurd (omega arith)
difference_sound d (x ∷ a) (y ∷ b) e h =
    let p = difference_sound (bit_or d (bit_xor x y)) a b (omega arith) h in
    let q = bit_or-eq-zero d (bit_xor x y) p.0 in (q.0, rw (bit_xor-eq-zero x y q.1, p.1) refl)

difference_same : (a : List ℕ) → tag_difference 0 a a ≡ 0
unfolding tag_difference
difference_same [] = refl
difference_same (x ∷ a) = rw bit_xor_self (difference_same a)

-- Two tags of one length are accepted as equal exactly if they are.
pub tag_equal_iff : (a b : List ℕ) → length a ≡ length b → (tag_equal a b ≡ true) ↔ (a ≡ b)
unfolding tag_equal
tag_equal_iff a b e = (
  λ h. (difference_sound 0 a b e ((==_iff (tag_difference 0 a b) 0).0 h)).1,
  λ h. rw (sym h) ((==_iff (tag_difference 0 a a) 0).1 (difference_same a)),
)

pub tag_equal_refl : (a : List ℕ) → tag_equal a a ≡ true
tag_equal_refl a = (tag_equal_iff a a refl).1 refl

-- A provider of a message authentication code with tags of 16 bytes: a session holds the bytes it was
-- fed since the start.
pub record IsMac (auth : Authenticator) : Type 0 where
  pub mac : List ℕ → List ℕ
  pub fed : auth.Session → List ℕ
  pub starts : (x : auth.Session) × (auth.start ≡ done x) × (fed x ≡ [])
  pub updates :
      (b : List ℕ) (x : auth.Session)
      → (y : auth.Session) × (auth.update b x ≡ done y) × (fed y ≡ fed x ++ b)
  pub finishes : (x : auth.Session) → auth.finish x ≡ done (mac (fed x))
  pub tag_length : (b : List ℕ) → length (mac b) ≡ 16

module _ (auth : Authenticator) (m : IsMac auth) where
  open auth use {Session, start, update, finish}

  -- Feeding the second buffer, which is left out when it is empty.
  update_some-fed :
      (b : List ℕ) (x : Session)
      → (y : Session) × (update_some auth b x ≡ done y) × (m.fed y ≡ m.fed x ++ b)
  update_some-fed [] x = (x, refl, sym (append-nil (m.fed x)))
  update_some-fed (c ∷ b) x = m.updates (c ∷ b) x

  pub auth_buffer-mac : (a b : List ℕ) → auth_buffer auth a b ≡ done (m.mac (a ++ b))
  unfolding auth_buffer
  auth_buffer-mac a b =
      let p = m.starts in
      let q = m.updates a p.0 in
      let r = update_some-fed b q.0 in rw (p.1, q.1, r.1, m.finishes r.0, r.2, q.2, p.2) refl

drop_all : (b : List ℕ) → drop (length b) b ≡ []
drop_all [] = refl
drop_all (x ∷ b) = drop_all b

fed_end : (b : List ℕ) (n : ℕ) (fed : List ℕ) → n ≡ length b → fed ≡ fed ++ drop n b
fed_end b n fed e = rw (e, drop_all b) (sym (append-nil fed))

take-drop-rest : (n k : ℕ) (b : List ℕ) → take n (drop k b) ++ drop (k + n) b ≡ drop k b
take-drop-rest n k b = rw (sym (drop-drop n k b)) (take-append-drop n (drop k b))

module _ ⦃files : Files⦄ (auth : Authenticator) (m : IsMac auth) where
  open files use {Store, File, read_at}
  open auth use {Session, start, update, finish}

  -- The file has these bytes behind the header of a record.
  abbrev pub HasPayload : File → List ℕ → Store → Type 0
  HasPayload file b s =
      (offset len : ℕ)
      → offset + len ≤ length b
      → read_at file (record_header_size + offset) len s ≡ done (take len (drop offset b))

  absorb-fed :
      (fuel offset left : ℕ) (file : File) (b : List ℕ) (s : Store) (x : Session)
      → HasPayload file b s
      → offset + left ≡ length b
      → left ≤ fuel
      → (y : Session) × (absorb auth fuel file offset left s x ≡ done y)
        × (m.fed y ≡ m.fed x ++ drop offset b)
  unfolding absorb
  absorb-fed zero offset left file b s x h e enough =
      (x, refl, fed_end b offset (m.fed x) (omega arith))
  absorb-fed (suc fuel) offset zero file b s x h e enough =
      (x, refl, fed_end b offset (m.fed x) (omega arith))
  absorb-fed (suc fuel) offset (suc left) file b s x h e enough =
      let chunk = min read_chunk_size (suc left) in
      let read = h offset chunk (omega arith) in
      let q = m.updates (take chunk (drop offset b)) x in
      let r =
        absorb-fed fuel (offset + chunk) (suc left - chunk) file b s q.0 h (omega arith)
          (omega arith) in
      (
        r.0,
        rw (read, q.1) r.1,
        r.2
            ∙ ap (λ (l : List ℕ). l ++ drop (offset + chunk) b) q.2
            ∙ append_assoc (m.fed x) (take chunk (drop offset b)) (drop (offset + chunk) b)
            ∙ ap (λ (l : List ℕ). m.fed x ++ l) (take-drop-rest chunk offset b),
      )

  -- The tag of a record is that of its header and its payload, read in chunks.
  pub auth_record-mac :
      (file : File) (h b : List ℕ) (s : Store)
      → HasPayload file b s
      → auth_record auth file h (length b) s ≡ done (m.mac (h ++ b))
  unfolding auth_record absorb
  auth_record-mac file h b s payload =
      let p = m.starts in
      let q = m.updates h p.0 in
      let r = absorb-fed (length b) 0 (length b) file b s q.0 payload (omega arith) (omega arith) in
      rw (p.1, q.1, r.1, m.finishes r.0, r.2, q.2, p.2) refl
