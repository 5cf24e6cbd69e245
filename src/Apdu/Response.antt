-- ===== src/Apdu/Response.antt =====
-- FidoAuth/pico-keys-sdk/src/apdu.c: the response buffer and its delivery in parts, each with the
-- status word 61xx but the last (apdu_finish, apdu_next, apdu_limit_response and GET RESPONSE).
-- Pointers into `apdu.rdata` are offsets; the buffer is long enough that no write is outside.
use key_wallet.Base.{
  ℕ, ◌+◌, ◌-◌, ◌/◌, ◌%◌, ◌^◌, Bool, true, false, ◌&&◌, ◌||◌, not, List, Option, none, some, ltb,
  leb, ◌==◌, if◌then◌else◌, set, get_or, take, drop,
}
use key_wallet.Bytes.{make_uint16_be}

pub record ResponseState : Type 0 where
  pub rdata : List ℕ
  pub rlen : ℕ
  pub sw : ℕ
  pub ne : ℕ
  pub rdata_gr : Option ℕ
  pub rdata_bk : ℕ
  pub response_pending : Bool

unfoldable pub put2 : ℕ → ℕ → ℕ → List ℕ → List ℕ
put2 at hi lo b = set (set b at hi) (at + 1) lo

unfoldable pub set_res_sw : ℕ → ℕ → ResponseState → ResponseState
set_res_sw sw1 sw2 r =
    let r1 = record r { sw = make_uint16_be sw1 sw2 } in
    if not (sw1 == 0x90) && not (sw1 == 0x61) then record r1 { rlen = 0 } else r1

unfoldable pub apdu_finish : ResponseState → ResponseState
apdu_finish r = record r { rdata = put2 r.rlen (r.sw / 256 % 256) (r.sw % 256) r.rdata }

-- What is left is announced in the place of the two bytes at `gr`, which `rdata_bk` keeps.
unfoldable pub announce : ℕ → ℕ → ResponseState → ResponseState
announce gr left r = record r {
  rdata_gr = some gr;
  rdata_bk = make_uint16_be (get_or r.rdata gr 0) (get_or r.rdata (gr + 1) 0);
  rdata = put2 gr 0x61 (if leb 256 left then 0 else left) r.rdata;
  rlen = left;
  response_pending = true;
}

-- The size of the first frame.
unfoldable pub apdu_next : ResponseState → ResponseState × ℕ
apdu_next r =
    if r.sw == 0
    then (record r { response_pending = false }, 0)
    else if leb r.rlen r.ne
    then (record r { response_pending = false }, (r.rlen + 2) % 2 ^ 16)
    else (announce r.ne (r.rlen - r.ne) r, (r.ne + 2) % 2 ^ 16)

unfoldable pub apdu_limit_response : ℕ → ℕ → ResponseState → ResponseState × ℕ
apdu_limit_response size_next max_size r =
    if (r.sw == 0) || ltb max_size 2 || leb size_next max_size
    then (r, size_next)
    else if leb r.rlen (max_size - 2)
    then (r, size_next)
    else (announce (max_size - 2) (r.rlen - (max_size - 2)) r, max_size)

unfoldable pub restore : ℕ → ResponseState → ResponseState
restore gr r = record r { rdata = put2 gr (r.rdata_bk / 256) (r.rdata_bk % 256) r.rdata }

-- The bytes that the driver sends: `size` of them from an offset on.
unfoldable pub frame : ℕ → ℕ → List ℕ → List ℕ
frame size offset b = take size (drop offset b)

-- GET RESPONSE while a response is pending; with the bytes that are sent.
unfoldable pub send_rest : ℕ → ResponseState → ResponseState × List ℕ
send_rest gr r =
    let r1 = restore gr r in
    if leb r.rlen r.ne
    then (
      record r1 { sw = 0; rlen = 0; rdata_gr = some 0; response_pending = false },
      frame (r.rlen + 2) gr r1.rdata,
    )
    else let r2 = announce (gr + r.ne) (r.rlen - r.ne) r1 in (r2, frame (r.ne + 2) gr r2.rdata)

-- The second part of `apdu_process`: the bytes sent, or `none` if the command goes on to
-- `process_apdu` (its result 1).
unfoldable pub get_response : ResponseState → ResponseState × Option (List ℕ)
get_response r =
    if not r.response_pending then (record r { rdata_gr = some 0 }, none) else elim r.rdata_gr [
      | none ↦ (record r { rdata_gr = some 0 }, none)
      | some gr ↦ let out = send_rest gr r in (out.0, some out.1)
    ]

unfoldable pub respond : ℕ → ResponseState → ResponseState × Option (List ℕ)
respond ins r =
    if ins == 0xc0
    then get_response r
    else (record r { sw = 0; rlen = 0; rdata_gr = some 0; response_pending = false }, none)
