-- ===== src/Apdu/Reassembly.antt =====
-- FidoAuth/pico-keys-sdk/src/apdu.c: the parts of a long response, put together, are the response.
use key_wallet.Base.{
  append-nil, ◌^◌, ◌≢◌, ◌⊎◌, inl, inr, ◌∙◌, drop-drop, All, min, ℕ, ◌+◌, ◌-◌, ◌/◌, ◌%◌, ◌≤◌, ◌<◌,
  ◌≡◌, refl, false, List, [], ◌∷◌, ◌++◌, none, some, length, take, drop, arith,
}
use key_wallet.Bytes.{IsByte}
use key_wallet.Apdu.Response.{ResponseState, announce, frame, apdu_next, apdu_finish, get_response}
use key_wallet.Apdu.Splice.{take-drop-put2, length-put2, take-add, payload, payload-take, All-put2}
use key_wallet.Apdu.Parts.{
  Owes, announce-Owes, last_part, next_part, announce-payload, announce-rlen, payload_of,
}

abbrev pub sum : List ℕ → ℕ
sum [] = 0
sum (n ∷ ns) = n + sum ns

-- The payloads that GET RESPONSE commands with the expected lengths `nes` fetch.
abbrev pub fetch : List ℕ → ResponseState → List ℕ
fetch [] r = []
fetch (ne ∷ nes) r =
    let out = get_response (record r { ne = ne }) in payload_of out.1 ++ fetch nes out.0

get_response-done :
    (r : ResponseState)
    → r.response_pending ≡ false
    → get_response r ≡ (record r { rdata_gr = some 0 }, none)
unfolding get_response
get_response-done r done = ground arith

fetch-done : (nes : List ℕ) (r : ResponseState) → r.response_pending ≡ false → fetch nes r ≡ []
fetch-done [] r done = refl
fetch-done (ne ∷ nes) r done =
    rw (get_response-done (record r { ne = ne }) done)
      (fetch-done nes (record r { rdata_gr = some 0; ne = ne }) done)

compared : (m n : ℕ) → (m ≤ n) ⊎ (n < m)
compared m n = ground arith

fetch-Owes :
    (nes : List ℕ) (b : List ℕ) (gr : ℕ) (r : ResponseState)
    → All IsByte b
    → Owes b gr r
    → fetch nes r ≡ take (min (sum nes) r.rlen) (drop gr b)
fetch-Owes [] b gr r bytes o = let e : min 0 r.rlen ≡ 0 = omega arith in rw e
fetch-Owes (ne ∷ nes) b gr r bytes o =
    let asked : ResponseState = record r { ne = ne } in
    let owes : Owes b gr asked = record {
      at = o.at;
      pending = o.pending;
      kept = o.kept;
      restorable = o.restorable;
      room = o.room;
    } in
    elim (compared r.rlen ne) [
      | inl last ↦
          (let p = last_part b gr asked bytes owes last in
            let e : min (ne + sum nes) r.rlen ≡ r.rlen = omega arith in
            rw (p.0, fetch-done nes (get_response asked).0 p.1, e)
              (append-nil (take r.rlen (drop gr b))))
      | inr more ↦
          (let p = next_part b gr asked bytes owes more in
            let e : min (ne + sum nes) r.rlen ≡ ne + min (sum nes) (r.rlen - ne) = omega arith in
            rw (
              p.0,
              fetch-Owes nes b (gr + ne) (get_response asked).0 bytes p.1.0,
              p.1.1,
              e,
              take-add ne (min (sum nes) (r.rlen - ne)) (drop gr b),
              drop-drop ne gr b,
            ))
    ]

-- The payload of the first frame of a finished response and those that GET RESPONSE commands fetch.
abbrev pub deliver : List ℕ → ResponseState → List ℕ
deliver nes r =
    let first = apdu_next (apdu_finish r) in
    payload (frame first.1 0 first.0.rdata) ++ fetch nes first.0

apdu_next-last :
    (r : ResponseState)
    → r.sw ≢ 0
    → r.rlen ≤ r.ne
    → r.rlen + 2 < 2 ^ 16
    → apdu_next r ≡ (record r { response_pending = false }, r.rlen + 2)
unfolding apdu_next
apdu_next-last r status last small = ground arith

apdu_next-next :
    (r : ResponseState)
    → r.sw ≢ 0
    → r.ne < r.rlen
    → r.rlen + 2 < 2 ^ 16
    → apdu_next r ≡ (announce (0 + r.ne) (r.rlen - r.ne) r, r.ne + 2)
unfolding apdu_next
apdu_next-next r status more small = let e : 0 + r.ne ≡ r.ne = omega arith in rw e ground arith

-- The first frame of a response whose buffer is complete.
payload-first : (n : ℕ) (b : List ℕ) → n + 2 ≤ length b → payload (frame (n + 2) 0 b) ≡ take n b
unfolding frame
payload-first n b room = payload-take n b room

first_rest :
    (m n : ℕ) (b : List ℕ)
    → take m (drop 0 b) ++ take n (drop (0 + m) b) ≡ take m b ++ take n (drop m b)
first_rest m n b = let e : 0 + m ≡ m = omega arith in rw e

first_frame :
    (nes : List ℕ) (r : ResponseState)
    → All IsByte r.rdata
    → r.rlen + 2 ≤ length r.rdata
    → r.rlen + 2 < 2 ^ 16
    → r.sw ≢ 0
    → payload (frame (apdu_next r).1 0 (apdu_next r).0.rdata) ++ fetch nes (apdu_next r).0
      ≡ take (min (r.ne + sum nes) r.rlen) r.rdata
first_frame nes r bytes room small status = elim (compared r.rlen r.ne) [
  | inl last ↦
      (let e : min (r.ne + sum nes) r.rlen ≡ r.rlen = omega arith in
        let none_left = fetch-done nes (record r { response_pending = false }) refl in
        rw
          (
            apdu_next-last r status last small,
            e,
            none_left,
            append-nil (payload (frame (r.rlen + 2) 0 r.rdata)),
          )
          (payload-first r.rlen r.rdata room))
  | inr more ↦
      (let left = r.rlen - r.ne in
        let e : min (r.ne + sum nes) r.rlen ≡ r.ne + min (sum nes) left = omega arith in
        let owes = announce-Owes r.rdata (0 + r.ne) left r refl (omega arith) in
        let sent = fetch-Owes nes r.rdata (0 + r.ne) (announce (0 + r.ne) left r) bytes owes in
        rw
          (
            apdu_next-next r status more small,
            announce-payload r.rdata 0 r.ne left r refl (omega arith),
            sent,
            announce-rlen (0 + r.ne) left r,
            e,
            take-add r.ne (min (sum nes) left) r.rdata,
          )
          (first_rest r.ne (min (sum nes) left) r.rdata))
]

-- A response of `rlen` bytes with a status word, in a buffer of bytes that holds both and has at
-- most 65535 of them, is delivered in order and without a gap, whatever lengths the host asks for:
-- the frames without their status words are its first bytes, as many as the host asked for in all,
-- at most `rlen`.
pub deliver_lem :
    (nes : List ℕ) (r : ResponseState)
    → All IsByte r.rdata
    → r.rlen + 2 ≤ length r.rdata
    → r.rlen + 2 < 2 ^ 16
    → r.sw ≢ 0
    → deliver nes r ≡ take (min (r.ne + sum nes) r.rlen) r.rdata
unfolding apdu_finish
deliver_lem nes r bytes room small status =
    let r1 = apdu_finish r in
    let b1 : All IsByte r1.rdata =
      All-put2 r.rlen (r.sw / 256 % 256) (r.sw % 256) r.rdata bytes (omega arith) (omega arith) in
    let e = length-put2 r.rlen (r.sw / 256 % 256) (r.sw % 256) r.rdata in
    first_frame nes r1 b1 (omega (arith, e, room)) small status
    ∙ take-drop-put2 (min (r.ne + sum nes) r.rlen) 0 r.rlen (r.sw / 256 % 256) (r.sw % 256) r.rdata
        (omega arith)
