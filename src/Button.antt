-- ===== src/Button.antt =====
-- FidoAuth/pico-keys-sdk/src/button.c on the ESP32: the wait for the user's presence. The levels, the
-- clock and the local authorization are inputs; the event for the queue and the signal, and the
-- message for wallet_ui_result, are outputs.
pub mod Presence
use key_wallet.Base.{
  ℕ, ◌+◌, ◌-◌, ◌%◌, ◌^◌, Bool, true, false, not, ◌&&◌, ◌||◌, Option, none, some, leb, if◌then◌else◌,
}
use Prim.Native.String.{String}
use key_wallet.Wallet.Device.{Authorization, pending, granted, cancelled}

-- `button_event_t` without BUTTON_EV_NONE
pub data Event : Type 0 where
  ev_pressed ev_timeout ev_cancelled : Event

pub record ButtonState : Type 0 where
  pub async_button_wait : Bool
  pub async_button_pressed : Bool
  pub async_button_started : ℕ
  pub async_button_timeout : ℕ
  pub approve_armed : Bool
  pub approve_raw : Bool
  pub approve_stable : Bool
  pub approve_changed : ℕ
  pub cancel_raw : Bool
  pub cancel_changed : ℕ
  pub physical_cancel : Bool
  pub cancel_button : Bool
  pub req_button_pending : Bool

-- `picok_board_button_read`, `gpio_get_level(GPIO_NUM_6) == 1`, `board_millis`, and what
-- `wallet_ui_take_local_authorization` hands out
pub record Inputs : Type 0 where
  pub board_button : Bool
  pub gpio6 : Bool
  pub now : ℕ
  pub local_authorization : Authorization

-- `(uint32_t)(now - since)`
unfoldable pub since : ℕ → ℕ → ℕ
since now before = (now + 2 ^ 32 - before) % 2 ^ 32

-- The wait of 30 seconds is mandatory on this board.
unfoldable pub button_wait_start : Inputs → ButtonState → ButtonState
button_wait_start i b = record b {
  async_button_wait = true;
  async_button_pressed = false;
  async_button_started = i.now;
  async_button_timeout = 30000;
  physical_cancel = false;
  approve_armed = false;
  approve_raw = i.board_button;
  approve_stable = i.board_button;
  cancel_raw = i.gpio6;
  approve_changed = i.now;
  cancel_changed = i.now;
  req_button_pending = true;
}

unfoldable pub bool_differs : Bool → Bool → Bool
bool_differs true x = not x
bool_differs false x = x

unfoldable pub take_authorization : Authorization → ButtonState → ButtonState
take_authorization pending b = b
take_authorization cancelled b = record b { cancel_button = true }
take_authorization granted b = record b { async_button_pressed = true }

-- `pressed` after the local authorization.
unfoldable pub still_pressed : Authorization → Bool → Bool
still_pressed granted pressed = false
still_pressed _ pressed = pressed

unfoldable pub approve_changes : Bool → ℕ → ButtonState → ButtonState
approve_changes pressed now b =
    if bool_differs pressed b.approve_raw
    then record b { approve_raw = pressed; approve_changed = now }
    else b

unfoldable pub approve_settles : ℕ → ButtonState → ButtonState
approve_settles now b =
    if leb 30 (since now b.approve_changed)
    then record b {
      approve_stable = b.approve_raw;
      approve_armed = b.approve_armed || not b.approve_raw;
    }
    else b

unfoldable pub cancel_changes : Bool → ℕ → ButtonState → ButtonState
cancel_changes cancel now b =
    if bool_differs cancel b.cancel_raw
    then record b { cancel_raw = cancel; cancel_changed = now }
    else b

unfoldable pub cancel_settles : ℕ → ButtonState → ButtonState
cancel_settles now b =
    if b.cancel_raw && leb 30 (since now b.cancel_changed)
    then record b {
      physical_cancel = b.physical_cancel || not b.cancel_button;
      cancel_button = true;
    }
    else b

unfoldable pub sampled : Inputs → ButtonState → ButtonState
sampled i b =
    let pressed = still_pressed i.local_authorization i.board_button in
    cancel_settles i.now (
      cancel_changes i.gpio6 i.now (
        approve_settles i.now
          (approve_changes pressed i.now (take_authorization i.local_authorization b))))

-- `pressed` after the debouncing
unfoldable pub debounced : ButtonState → Bool
debounced b = b.approve_armed && b.approve_stable

unfoldable pub noted : ButtonState → ButtonState
noted b = record b { async_button_pressed = b.async_button_pressed || debounced b }

unfoldable pub outcome : ℕ → ButtonState → Option Event
outcome now b =
    if b.cancel_button
    then some ev_cancelled
    else if leb b.async_button_timeout (since now b.async_button_started)
    then some ev_timeout
    else if b.async_button_pressed && not (debounced b)
    then some ev_pressed
    else none

unfoldable pub message_of : Event → Bool → String
message_of ev_pressed physical = "APPROVED"
message_of ev_timeout physical = "TIMED OUT"
message_of ev_cancelled physical = if physical then "GPIO SIX CANCEL" else "HOST CANCEL"

-- The end of the wait; a pending cancellation wins over approval.
unfoldable pub finish : Event → ButtonState → ButtonState × Option (Event × String)
finish ev_pressed b =
    let ended = record b { async_button_wait = false; req_button_pending = false } in
    if b.cancel_raw
    then (
      record ended { physical_cancel = true },
      some (ev_cancelled, message_of ev_cancelled true),
    )
    else (ended, some (ev_pressed, message_of ev_pressed b.physical_cancel))
finish e b = (
  record b { async_button_wait = false; req_button_pending = false },
  some (e, message_of e b.physical_cancel),
)

unfoldable pub conclude : Option Event → ButtonState → ButtonState × Option (Event × String)
conclude none b = (b, none)
conclude (some e) b = finish e b

unfoldable pub no_authorization : Authorization → Bool
no_authorization pending = true
no_authorization _ = false

unfoldable pub button_wait_poll : Inputs → ButtonState → ButtonState × Option (Event × String)
button_wait_poll i b =
    if not b.async_button_wait || no_authorization i.local_authorization
    then (b, none)
    else let b1 = noted (sampled i b) in conclude (outcome i.now b1) b1
