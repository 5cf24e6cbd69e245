-- ===== src/Apdu/Pieces.antt =====
-- FidoAuth/pico-keys-sdk/src/apdu.c, process_apdu: a command sent in pieces arrives whole.
use key_wallet.Base.{
  ℕ, ◌+◌, ◌<◌, ◌≡◌, ◌≢◌, ◌⊎◌, true, false, List, [], ◌∷◌, ◌++◌, bit_and, length, arith,
  length-append, append_assoc, append-nil,
}
use key_wallet.Apdu.{Header}
use key_wallet.Apdu.Chain.{
  ChainState, answer, dispatch, chain_capacity, sw_ok, unchained, is_select, same_header,
  chain_reset, chain_start, chain_append, chain_more, chain_last, chain,
}

-- The buffer has room left, and outside a chain nothing is kept.
abbrev pub IsChain : ChainState → Type 0
IsChain c = (length c.chain_buf < chain_capacity) × ((c.is_chaining ≡ true) ⊎ (c.chain_buf ≡ []))

-- Every command, in and out of order, keeps the chain buffer within its bound, and empty when there
-- is no chain.
pub chain-IsChain :
    (h : Header) (body : List ℕ) (c : ChainState) → IsChain c → IsChain (chain h body c).0
unfolding chain chain_more chain_last chain_append chain_start chain_reset same_header is_select
chain-IsChain h body c v = ground (arith, length-append c.chain_buf body)

abbrev pub concat : List (List ℕ) → List ℕ
concat [] = []
concat (x ∷ xs) = x ++ concat xs

-- Pieces with the header `h`, one after the other.
abbrev pub send_all : Header → List (List ℕ) → ChainState → ChainState
send_all h [] c = c
send_all h (piece ∷ pieces) c = send_all h pieces (chain h piece c).0

abbrev chaining : Header → List ℕ → ChainState
chaining h buf = record {
  is_chaining = true;
  chain_buf = buf;
  chain_header = record h { cla = unchained h.cla };
}

same_header_refl : (h : Header) → same_header h (record h { cla = unchained h.cla }) ≡ true
unfolding same_header
same_header_refl h = ground arith

chain-chaining :
    (h : Header) (piece buf : List ℕ)
    → bit_and h.cla 0x10 ≢ 0
    → length buf + length piece < chain_capacity
    → chain h piece (chaining h buf) ≡ (chaining h (buf ++ piece), answer sw_ok)
unfolding chain chain_more chain_append
chain-chaining h piece buf more small = ground (arith, same_header_refl h)

send_all-chaining :
    (h : Header) (pieces : List (List ℕ)) (buf : List ℕ)
    → bit_and h.cla 0x10 ≢ 0
    → length buf + length (concat pieces) < chain_capacity
    → send_all h pieces (chaining h buf) ≡ chaining h (buf ++ concat pieces)
send_all-chaining h [] buf more small = rw (append-nil buf)
send_all-chaining h (piece ∷ pieces) buf more small =
    let e = length-append piece (concat pieces) in
    let e2 = length-append buf piece in
    rw (
      chain-chaining h piece buf more (omega (arith, e, small)),
      send_all-chaining h pieces (buf ++ piece) more (omega (arith, e, e2, small)),
      append_assoc buf piece (concat pieces),
    )

chain-start :
    (h : Header) (piece : List ℕ) (c : ChainState)
    → bit_and h.cla 0x10 ≢ 0
    → c.is_chaining ≡ false
    → length piece < chain_capacity
    → chain h piece c ≡ (chaining h piece, answer sw_ok)
unfolding chain chain_more chain_append chain_start
chain-start h piece c more fresh small = ground arith

chain-ends :
    (h last : Header) (buf body : List ℕ)
    → bit_and last.cla 0x10 ≡ 0
    → same_header last (record h { cla = unchained h.cla }) ≡ true
    → is_select last ≡ false
    → length buf + length body < chain_capacity
    → ((chain last body (chaining h buf)).1 ≡ dispatch last (buf ++ body))
      × ((chain last body (chaining h buf)).0.is_chaining ≡ false)
unfolding chain chain_last chain_reset
chain-ends h last buf body end same plain small = ground arith

-- Pieces of a command, all with the chaining bit and one header, followed by a last piece without
-- the bit and otherwise the same header, which is not a SELECT: if together they are shorter than
-- the chain buffer and no chain was open, the last one is dispatched with the bytes of all in order,
-- and no chain is open after it.
pub chain-send_all :
    (h last : Header) (piece : List ℕ) (pieces : List (List ℕ)) (body : List ℕ) (c : ChainState)
    → c.is_chaining ≡ false
    → bit_and h.cla 0x10 ≢ 0
    → bit_and last.cla 0x10 ≡ 0
    → same_header last (record h { cla = unchained h.cla }) ≡ true
    → is_select last ≡ false
    → length (concat (piece ∷ pieces)) + length body < chain_capacity
    → ((chain last body (send_all h (piece ∷ pieces) c)).1
        ≡ dispatch last (concat (piece ∷ pieces) ++ body))
      × ((chain last body (send_all h (piece ∷ pieces) c)).0.is_chaining ≡ false)
chain-send_all h last piece pieces body c fresh more end same plain small =
    let e = length-append piece (concat pieces) in
    let sent : send_all h (piece ∷ pieces) c ≡ chaining h (concat (piece ∷ pieces)) = rw (
      chain-start h piece c more fresh (omega (arith, e, small)),
      send_all-chaining h pieces piece more (omega (arith, e, small)),
    ) in
    rw sent (chain-ends h last (concat (piece ∷ pieces)) body end same plain small)
