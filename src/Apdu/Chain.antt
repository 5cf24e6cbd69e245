-- ===== src/Apdu/Chain.antt =====
-- FidoAuth/pico-keys-sdk/src/apdu.c, process_apdu: command chaining and the dispatch of a command.
use key_wallet.Base.{
  ℕ, ◌+◌, Bool, true, false, ◌&&◌, ◌||◌, not, List, [], ◌++◌, Option, none, some, bit_and, leb,
  ◌==◌, if◌then◌else◌, length,
}
use key_wallet.Bytes.{Status, ok}
use key_wallet.Apdu.{Header}

-- `chain_buf` is its bytes up to `chain_ptr`.
pub record ChainState : Type 0 where
  pub is_chaining : Bool
  pub chain_buf : List ℕ
  pub chain_header : Header

-- What the dispatcher calls: `select_app`, and the handler of the current application, if there is
-- one, which answers with a status word.
pub record Applications : Type 1 where
  pub State : Type 0
  pub select_app : List ℕ → State → Status × State
  pub process_apdu : Header → List ℕ → State → Option (ℕ × State)

abbrev pub chain_capacity : ℕ
chain_capacity = 2038

abbrev pub sw_ok : ℕ
sw_ok = 0x9000

abbrev pub sw_last_chain_expected : ℕ
sw_last_chain_expected = 0x6883

abbrev pub sw_wrong_length : ℕ
sw_wrong_length = 0x6700

abbrev pub sw_cla_not_supported : ℕ
sw_cla_not_supported = 0x6e00

abbrev pub sw_file_not_found : ℕ
sw_file_not_found = 0x6a82

-- `cla & ~0x10`
unfoldable pub unchained : ℕ → ℕ
unchained cla = bit_and cla 0xef

unfoldable pub is_select : Header → Bool
is_select h = (h.ins == 0xa4) && (h.p1 == 0x04) && ((h.p2 == 0) || (h.p2 == 0x04))

unfoldable pub same_header : Header → Header → Bool
same_header h chain =
    (unchained h.cla == chain.cla)
    && (h.ins == chain.ins)
    && (h.p1 == chain.p1)
    && (h.p2 == chain.p2)

unfoldable pub chain_reset : ChainState → ChainState
chain_reset c = record c { is_chaining = false; chain_buf = [] }

unfoldable pub chain_start : Header → ChainState → ChainState
chain_start h c = record c { chain_buf = []; chain_header = record h { cla = unchained h.cla } }

-- What the chaining leaves to do: nothing but a status word, or a complete command.
pub data Next : Type 0 where
  answer : ℕ → Next
  dispatch : Header → List ℕ → Next

unfoldable pub chain_append : List ℕ → ChainState → ChainState × Next
chain_append body c =
    if leb chain_capacity (length c.chain_buf + length body)
    then (chain_reset c, answer sw_wrong_length)
    else (record c { is_chaining = true; chain_buf = c.chain_buf ++ body }, answer sw_ok)

-- A command that announces another one.
unfoldable pub chain_more : Header → List ℕ → ChainState → ChainState × Next
chain_more h body c =
    if not c.is_chaining
    then chain_append body (chain_start h c)
    else if not (same_header h c.chain_header)
    then (chain_reset c, answer sw_last_chain_expected)
    else chain_append body c

-- The last command of a chain gets the bytes of the others in front of its own.
unfoldable pub chain_last : Header → List ℕ → ChainState → ChainState × Next
chain_last h body c =
    if not c.is_chaining
    then (c, dispatch h body)
    else if is_select h
    then (chain_reset c, dispatch h body)
    else if not (same_header h c.chain_header)
    then (chain_reset c, answer sw_last_chain_expected)
    else if leb chain_capacity (length c.chain_buf + length body)
    then (chain_reset c, answer sw_wrong_length)
    else (chain_reset c, dispatch h (c.chain_buf ++ body))

unfoldable pub chain : Header → List ℕ → ChainState → ChainState × Next
chain h body c = if bit_and h.cla 0x10 == 0 then chain_last h body c else chain_more h body c

module _ (apps : Applications) where
  open apps use {State, select_app, process_apdu}

  unfoldable pub selected : Status × State → ℕ × State
  selected (ok, s) = (sw_ok, s)
  selected (_, s) = (sw_file_not_found, s)

  unfoldable pub handled : State → Option (ℕ × State) → ℕ × State
  handled s none = (sw_file_not_found, s)
  handled s (some result) = result

  -- A command that reaches the dispatch has no chaining bit, so its CLA is tested alone.
  unfoldable pub dispatched : Header → List ℕ → State → ℕ × State
  dispatched h body s =
      if not (bit_and h.cla 0x0c == 0)
      then (sw_cla_not_supported, s)
      else if is_select h
      then selected (select_app body s)
      else handled s (process_apdu h body s)

  unfoldable pub next : Next → State → ℕ × State
  next (answer sw) s = (sw, s)
  next (dispatch h body) s = dispatched h body s

  -- The status word, the chain and the state of the applications.
  unfoldable pub process : Header → List ℕ → ChainState × State → ℕ × (ChainState × State)
  process h body (c, s) = let r = chain h body c in let out = next r.1 s in (out.0, (r.0, out.1))
