-- ===== src/Tests/ButtonRuns.antt =====
-- A wait for the user's presence at concrete inputs.
use key_wallet.Base.{◌≡◌, ◌<◌, refl, true, false}
use key_wallet.Wallet.Device.{granted}
use key_wallet.Button.{
  ButtonState, Inputs, ev_pressed, since, button_wait_poll, take_authorization, still_pressed,
  approve_changes, approve_settles, cancel_changes, cancel_settles, sampled, noted, debounced,
  outcome, finish, conclude, no_authorization, bool_differs, message_of,
}
use key_wallet.Button.Presence.{Reports, button_wait_poll-pressed}

abbrev waiting : ButtonState
waiting = record {
  async_button_wait = true;
  async_button_pressed = false;
  async_button_started = 5000;
  async_button_timeout = 30000;
  approve_armed = false;
  approve_raw = true;
  approve_stable = true;
  approve_changed = 5000;
  cancel_raw = false;
  cancel_changed = 5000;
  physical_cancel = false;
  cancel_button = false;
  req_button_pending = true;
}

abbrev approval : Inputs
approval = record { board_button = true; gpio6 = false; now = 9000; local_authorization = granted }

approval_reported : Reports ev_pressed (button_wait_poll approval waiting).1
unfolding button_wait_poll take_authorization still_pressed approve_changes approve_settles
    cancel_changes cancel_settles sampled noted debounced outcome finish conclude no_authorization
    bool_differs message_of since
approval_reported = refl

button_wait_poll-pressed_example :
    (waiting.async_button_wait ≡ true)
    × (approval.local_authorization ≡ granted)
    × (waiting.cancel_button ≡ false)
    × (approval.gpio6 ≡ false)
    × (since 9000 5000 < 30000)
button_wait_poll-pressed_example = button_wait_poll-pressed approval waiting approval_reported
