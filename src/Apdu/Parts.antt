-- ===== src/Apdu/Parts.antt =====
-- FidoAuth/pico-keys-sdk/src/apdu.c, apdu_process: what one GET RESPONSE sends, and what it leaves.
use key_wallet.Base.{
  ◌∙◌, length-drop, All, ℕ, ◌+◌, ◌-◌, ◌/◌, ◌%◌, ◌≤◌, ◌<◌, ◌≡◌, refl, true, false, List, [], Option,
  none, some, length, take, drop, get_or, arith, leb, if◌then◌else◌,
}
use key_wallet.Bytes.Bounds.{get_or-IsByte}
use key_wallet.Bytes.{IsByte, make_uint16_be}
use key_wallet.Apdu.Response.{
  ResponseState, put2, announce, restore, frame, send_rest, get_response,
}
use key_wallet.Apdu.Splice.{put2_back, take-drop-put2, length-put2, payload, payload-take}

-- The response `b`, whose bytes before `gr` were sent, and after them `rlen` are left.
pub record Owes (b : List ℕ) (gr : ℕ) (r : ResponseState) : Type 0 where
  pub at : r.rdata_gr ≡ some gr
  pub pending : r.response_pending ≡ true
  pub kept : r.rdata_bk ≡ make_uint16_be (get_or b gr 0) (get_or b (gr + 1) 0)
  pub restorable : put2 gr (get_or b gr 0) (get_or b (gr + 1) 0) r.rdata ≡ b
  pub room : gr + r.rlen + 2 ≤ length b

pub announce-Owes :
    (b : List ℕ) (gr left : ℕ) (r : ResponseState)
    → r.rdata ≡ b
    → gr + left + 2 ≤ length b
    → Owes b gr (announce gr left r)
unfolding announce
announce-Owes b gr left r e room = record {
  at = refl;
  pending = refl;
  kept = rw e;
  restorable = rw e (put2_back gr 0x61 (if leb 256 left then 0 else left) b (omega arith));
  room = room;
}

pub announce-rlen : (gr left : ℕ) (r : ResponseState) → (announce gr left r).rlen ≡ left
unfolding announce
announce-rlen gr left r = refl

restore-Owes :
    (b : List ℕ) (gr : ℕ) (r : ResponseState)
    → All IsByte b
    → Owes b gr r
    → (restore gr r).rdata ≡ b
unfolding restore
restore-Owes b gr r bytes o =
    let hi = get_or-IsByte b gr bytes in
    let lo = get_or-IsByte b (gr + 1) bytes in
    let e1 : r.rdata_bk / 256 ≡ get_or b gr 0 = omega (arith, hi, lo, o.kept) in
    let e2 : r.rdata_bk % 256 ≡ get_or b (gr + 1) 0 = omega (arith, hi, lo, o.kept) in
    rw (e1, e2) o.restorable

abbrev pub payload_of : Option (List ℕ) → List ℕ
payload_of none = []
payload_of (some f) = payload f

pub last_part :
    (b : List ℕ) (gr : ℕ) (r : ResponseState)
    → All IsByte b
    → Owes b gr r
    → r.rlen ≤ r.ne
    → (payload_of (get_response r).1 ≡ take r.rlen (drop gr b))
      × ((get_response r).0.response_pending ≡ false)
unfolding get_response send_rest frame
last_part b gr r bytes o enough =
    let e : length (drop gr b) ≡ length b - gr = length-drop gr b in
    let w = payload-take r.rlen (drop gr b) (omega (arith, e, o.room)) in
    ground (arith, o.at, o.pending, restore-Owes b gr r bytes o, w)

get_response-next :
    (gr : ℕ) (r : ResponseState)
    → r.rdata_gr ≡ some gr
    → r.response_pending ≡ true
    → r.ne < r.rlen
    → get_response r ≡ (
      announce (gr + r.ne) (r.rlen - r.ne) (restore gr r),
      some (frame (r.ne + 2) gr (announce (gr + r.ne) (r.rlen - r.ne) (restore gr r)).rdata),
    )
unfolding get_response send_rest
get_response-next gr r at pending less = ground arith

-- The payload of a frame with an announcement behind `ne` bytes.
payload-frame :
    (b : List ℕ) (gr ne x : ℕ)
    → gr + ne + 2 ≤ length b
    → payload (frame (ne + 2) gr (put2 (gr + ne) 0x61 x b)) ≡ take ne (drop gr b)
unfolding frame
payload-frame b gr ne x room =
    let e = length-drop gr (put2 (gr + ne) 0x61 x b) in
    let e2 = length-put2 (gr + ne) 0x61 x b in
    payload-take ne (drop gr (put2 (gr + ne) 0x61 x b)) (omega (arith, e, e2, room))
    ∙ take-drop-put2 ne gr (gr + ne) 0x61 x b (omega arith)

pub announce-payload :
    (b : List ℕ) (gr ne left : ℕ) (r : ResponseState)
    → r.rdata ≡ b
    → gr + ne + 2 ≤ length b
    → payload (frame (ne + 2) gr (announce (gr + ne) left r).rdata) ≡ take ne (drop gr b)
unfolding announce
announce-payload b gr ne left r e room =
    rw e (payload-frame b gr ne (if leb 256 left then 0 else left) room)

pub next_part :
    (b : List ℕ) (gr : ℕ) (r : ResponseState)
    → All IsByte b
    → Owes b gr r
    → r.ne < r.rlen
    → (payload_of (get_response r).1 ≡ take r.ne (drop gr b))
      × (Owes b (gr + r.ne) (get_response r).0 × ((get_response r).0.rlen ≡ r.rlen - r.ne))
next_part b gr r bytes o less =
    let e = restore-Owes b gr r bytes o in
    let room = o.room in
    rw (get_response-next gr r o.at o.pending less) (
      announce-payload b gr r.ne (r.rlen - r.ne) (restore gr r) e (omega arith),
      (
        announce-Owes b (gr + r.ne) (r.rlen - r.ne) (restore gr r) e (omega arith),
        announce-rlen (gr + r.ne) (r.rlen - r.ne) (restore gr r),
      ),
    )
