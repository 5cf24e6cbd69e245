-- ===== src/Tests/ApduRuns.antt =====
-- Commands and responses at concrete inputs.
use key_wallet.Base.{◌≡◌, refl, ◌<◌, [], ◌∷◌, some, none, inr, arith, All, true, false}
use key_wallet.Bytes.{put_uint16_be}
use key_wallet.Apdu.{Header, parse}
use key_wallet.Apdu.Chain.{ChainState, dispatch, chain, unchained, same_header, is_select}
use key_wallet.Apdu.Response.{ResponseState}
use key_wallet.Apdu.Forms.{encode_short, encode_extended, parse-encode_short, parse-encode_extended}
use key_wallet.Apdu.Pieces.{IsChain, send_all, chain-IsChain, chain-send_all}
use key_wallet.Apdu.Reassembly.{deliver, deliver_lem}

abbrev put_header : Header
put_header = record { cla = 0; ins = 1; p1 = 0; p2 = 0 }

abbrev more_header : Header
more_header = record { cla = 16; ins = 1; p1 = 0; p2 = 0 }

abbrev no_chain : ChainState
no_chain = record { is_chaining = false; chain_buf = []; chain_header = put_header }

parse-encode_short_example :
    parse (encode_short put_header (1 ∷ 2 ∷ []) (some 256))
    ≡ some (record { header = put_header; nc = 2; ne = 256; body = 1 ∷ 2 ∷ [] })
parse-encode_short_example =
    parse-encode_short put_header (1 ∷ 2 ∷ []) (some 256) (omega arith) (omega arith)
      (omega arith, omega arith)

parse-encode_extended_example :
    parse (encode_extended put_header (1 ∷ 2 ∷ []) (some 65536))
    ≡ some (record { header = put_header; nc = 2; ne = 65536; body = 1 ∷ 2 ∷ [] })
unfolding put_uint16_be
parse-encode_extended_example =
    parse-encode_extended put_header (1 ∷ 2 ∷ []) (some 65536) (omega arith) (omega arith)
      (omega arith, omega arith)

chain-IsChain_example : IsChain (chain more_header (1 ∷ 2 ∷ []) no_chain).0
chain-IsChain_example = chain-IsChain more_header (1 ∷ 2 ∷ []) no_chain (omega arith, inr refl)

same_headers :
    same_header put_header (record more_header { cla = unchained more_header.cla }) ≡ true
unfolding same_header unchained
same_headers = refl

not_select : is_select put_header ≡ false
unfolding is_select
not_select = refl

chain-send_all_example :
    ((chain put_header (4 ∷ []) (send_all more_header ((1 ∷ 2 ∷ []) ∷ (3 ∷ []) ∷ []) no_chain)).1
      ≡ dispatch put_header (1 ∷ 2 ∷ 3 ∷ 4 ∷ []))
    × ((chain put_header
          (4 ∷ [])
          (send_all more_header ((1 ∷ 2 ∷ []) ∷ (3 ∷ []) ∷ []) no_chain)).0.is_chaining
        ≡ false)
chain-send_all_example =
    chain-send_all more_header put_header (1 ∷ 2 ∷ []) ((3 ∷ []) ∷ []) (4 ∷ []) no_chain refl
      (λ e. cc) refl same_headers not_select (omega arith)

-- Five bytes, of which the host asks for two at a time.
abbrev five_bytes : ResponseState
five_bytes = record {
  rdata = 1 ∷ 2 ∷ 3 ∷ 4 ∷ 5 ∷ 0 ∷ 0 ∷ 0 ∷ [];
  rlen = 5;
  sw = 0x9000;
  ne = 2;
  rdata_gr = none;
  rdata_bk = 0;
  response_pending = false;
}

five_bytes-IsByte : All (λ b. b < 256) five_bytes.rdata
five_bytes-IsByte = (
  omega arith,
  (
    omega arith,
    (omega arith, (omega arith, (omega arith, (omega arith, (omega arith, (omega arith, tt)))))),
  ),
)

deliver_lem_example : deliver (2 ∷ 2 ∷ []) five_bytes ≡ 1 ∷ 2 ∷ 3 ∷ 4 ∷ 5 ∷ []
deliver_lem_example =
    deliver_lem (2 ∷ 2 ∷ []) five_bytes five_bytes-IsByte (omega arith) (omega arith) (λ e. cc)
