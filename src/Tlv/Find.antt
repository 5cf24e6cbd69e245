-- ===== src/Tlv/Find.antt =====
-- FidoAuth/pico-keys-sdk/src/tlv.c, tlv_find_tag: which value it finds, and that it ends.
use key_wallet.Base.{
  ℕ, zero, suc, ◌<◌, ◌≡◌, List, [], ◌∷◌, ◌++◌, Option, none, some, ◌==◌, if◌then◌else◌, All, length,
  arith, length-append, Option-cases, Bool-cases, ==_iff, inl, inr, sym, ◌≢◌,
}
use key_wallet.Tlv.{Item, tlv_len, tlv_walk, walk_at, found, find_from, tlv_find_tag}
use key_wallet.Tlv.Walk.{
  encode, IsItem, Inside, walk_at-encode, walk_at-length, encode-length, walk_at-nil,
}

abbrev pub encode_all : List Item → List ℕ
encode_all [] = []
encode_all (i ∷ items) = encode i ++ encode_all items

-- The value of the first item with the tag.
abbrev pub lookup : List Item → ℕ → Option (List ℕ)
lookup [] tag = none
lookup (i ∷ items) tag = if tag == i.tag then some i.value else lookup items tag

find_from-encode_all :
    (fuel : ℕ) (b : List ℕ) (items : List Item) (tag : ℕ)
    → All IsItem items
    → length (encode_all items) < fuel
    → find_from fuel (some b) tag (some (encode_all items)) ≡ lookup items tag
unfolding find_from found tlv_walk
find_from-encode_all zero b items tag h enough = elim enough [ ]
find_from-encode_all (suc fuel) b [] tag h enough = rw walk_at-nil
find_from-encode_all (suc fuel) b (i ∷ items) tag (v, vs) enough =
    let e = length-append (encode i) (encode_all items) in
    let pos = encode-length i in
    let less : length (encode_all items) < fuel = omega (arith, e, pos, enough) in
    rw (walk_at-encode i (encode_all items) v, find_from-encode_all fuel b items tag vs less)

-- In a buffer that holds items one after the other, `tlv_find_tag` finds the value of the first item
-- with the tag, and nothing when no item has it.
pub tlv_find_tag-encode_all :
    (items : List Item) (tag : ℕ)
    → All IsItem items
    → tlv_find_tag (some (encode_all items)) tag ≡ lookup items tag
unfolding tlv_find_tag find_from tlv_walk tlv_len
tlv_find_tag-encode_all items tag h =
    find_from-encode_all (suc (length (encode_all items))) (encode_all items) items tag h
      (omega arith)

-- A run of the loop of `tlv_find_tag` from a place in the buffer to its return: it stops where no item
-- can be read, returns the value of an item with the tag, and goes on behind an item with another one.
pub data Finding (tag : ℕ) : List ℕ → Option (List ℕ) → Type 0 where
  ended : {p : List ℕ} → walk_at p ≡ none → Finding tag p none
  hit :
      {p q : List ℕ} {i : Item}
      → walk_at p ≡ some (i, q)
      → i.tag ≡ tag
      → Finding tag p (some i.value)
  missed :
      {p q : List ℕ} {i : Item} {r : Option (List ℕ)}
      → walk_at p ≡ some (i, q)
      → i.tag ≢ tag
      → Finding tag q r
      → Finding tag p r

find_from-Finding :
    (fuel : ℕ) (b p : List ℕ) (tag : ℕ)
    → length p < fuel
    → Finding tag p (find_from fuel (some b) tag (some p))
unfolding find_from tlv_walk found
find_from-Finding zero b p tag h = elim h [ ]
find_from-Finding (suc fuel) b p tag h = elim (Option-cases (walk_at p)) [
  | inl nothing ↦ rw nothing (ended nothing)
  | inr (read, e) ↦
      (let inside : Inside p (some read) = rw e at (walk_at-length p) in
        elim (Bool-cases (tag == read.0.tag)) [
          | inl same ↦
              rw (e, same) (hit {q = read.1} {i = read.0} e (sym ((==_iff tag read.0.tag).0 same)))
          | inr different ↦
              rw (e, different)
                (missed {q = read.1} {i = read.0} e
                  (λ same. absurd (ground (arith, same, different)))
                  (find_from-Finding fuel b read.1 tag (omega (arith, h, inside))))
        ])
]

-- The loop of `tlv_find_tag` ends on every buffer: what it returns is the result of a run of the loop,
-- which is finite.
pub tlv_find_tag-Finding : (b : List ℕ) (tag : ℕ) → Finding tag b (tlv_find_tag (some b) tag)
unfolding tlv_find_tag find_from tlv_walk tlv_len
tlv_find_tag-Finding b tag = find_from-Finding (suc (length b)) b b tag (omega arith)
