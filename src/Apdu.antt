-- ===== src/Apdu.antt =====
-- FidoAuth/pico-keys-sdk/src/apdu.c: the command APDUs of the smart card, their chaining, and the
-- responses that are too long for one frame. `uint32_t` values stay far below their bound here.
pub mod Chain
pub mod Response
pub mod Forms
pub mod Splice
pub mod Parts
pub mod Reassembly
pub mod Pieces
use key_wallet.Base.{
  ℕ, ◌+◌, ◌*◌, ◌-◌, ◌%◌, ◌^◌, Bool, true, false, ◌&&◌, ◌||◌, not, List, [], ◌∷◌, Option, none, some,
  bit_and, ltb, leb, ◌==◌, if◌then◌else◌, length, take, drop, get_or,
}
use key_wallet.Bytes.{get_uint16_be, make_uint16_be}

-- CLA, INS, P1 and P2.
pub record Header : Type 0 where
  pub cla : ℕ
  pub ins : ℕ
  pub p1 : ℕ
  pub p2 : ℕ

-- A command as `apdu_process` leaves it in `apdu`: `body` is the `nc` bytes at `apdu.data`.
pub record Command : Type 0 where
  pub header : Header
  pub nc : ℕ
  pub ne : ℕ
  pub body : List ℕ

unfoldable pub header_of : List ℕ → Header
header_of buffer = record {
  cla = get_or buffer 0 0;
  ins = get_or buffer 1 0;
  p1 = get_or buffer 2 0;
  p2 = get_or buffer 3 0;
}

-- An expected length of 0 stands for the largest one.
unfoldable pub expected : ℕ → ℕ → ℕ
expected ne largest = if ne == 0 then largest else ne

unfoldable pub command : List ℕ → ℕ → ℕ → List ℕ → Command
command buffer nc ne body = record { header = header_of buffer; nc = nc; ne = ne; body = body }

-- Extended lengths with a body, of which `nc` bytes are announced.
unfoldable pub extended : List ℕ → ℕ → Option Command
extended buffer nc =
    let size = length buffer in
    let body = take nc (drop 7 buffer) in
    if not (size == nc + 7) && not (size == nc + 7 + 2)
    then none
    else if size == nc + 7 + 2
    then some (command buffer nc (expected (get_uint16_be (drop (size - 2) buffer)) 65536) body)
    else some (command buffer nc 0 body)

unfoldable pub short : List ℕ → ℕ → Option Command
short buffer nc =
    let size = length buffer in
    let body = take nc (drop 5 buffer) in
    if not (size == nc + 5) && not (size == nc + 5 + 1)
    then none
    else if size == nc + 5 + 1
    then some (command buffer nc (expected (get_or buffer (size - 1) 0) 256) body)
    else some (command buffer nc 0 body)

-- The first part of `apdu_process`; `none` is its early `return 0`, after which nothing reads `nc`
-- and `ne` before the next command sets them.
unfoldable pub parse : List ℕ → Option Command
parse buffer =
    let size = length buffer in
    if ltb size 4 || ltb 65535 size
    then none
    else if size == 4
    then some (command buffer 0 256 [])
    else if size == 5
    then some (command buffer 0 (expected (get_or buffer 4 0) 256) [])
    else if (get_or buffer 4 0 == 0) && leb 7 size
    then if size == 7
      then some (command buffer 0 (expected (get_uint16_be (drop 5 buffer)) 65536) [])
      else extended buffer (get_uint16_be (drop 5 buffer))
    else short buffer (get_or buffer 4 0)
