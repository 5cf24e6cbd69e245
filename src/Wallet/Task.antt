-- ===== src/Wallet/Task.antt =====
-- wallet_ui.c, the functions of wallet_ui.h that run after the start: `wallet_ui_prompt`,
-- `wallet_ui_take_local_authorization`, `wallet_ui_result` and `wallet_ui_command`.
use Prim.Native.String.{String}
use text.Mathlib.Text.{◌==◌ as str_eq, find?}
use key_wallet.Base.{ℕ, ◌+◌, ◌%◌, ◌^◌, List, none, some}
use key_wallet.Base.{Bool, true, false, not, ◌&&◌, ◌==◌, if◌then◌else◌, get_or}
use key_wallet.Wallet.Platform.{Platform}
use key_wallet.Wallet.Device.{Device, MenuState, Authorization, idle, create, verify, pending}
use key_wallet.Wallet.Display.{flush, render}
use key_wallet.Wallet.Pin.{zeros}
use key_wallet.Wallet.Keypad.{elapsed, reached}

-- `pin_hash[0]` is not 0: a PIN is set.
abbrev pub has_pin : List ℕ → Bool
has_pin hash = not (get_or hash 0 0 == 0)

abbrev pub is_pending : Authorization → Bool
is_pending pending = true
is_pending _ = false

-- The assignments that close the settings and the history.
abbrev pub close_menus : MenuState → MenuState
close_menus m = record m {
  settings_open = false;
  settings_detail_open = false;
  settings_change_confirm = false;
  settings_reset_confirm = false;
  settings_change_success = false;
  history_open = false;
}

module _ ⦃p : Platform⦄ where
  open p use {World, ticks, ms_to_ticks, is_low}

  unfoldable pub prompted : Device World → Device World
  prompted s = record s {
    menu = close_menus s.menu;
    screen = record s.screen {
      waiting = true;
      result_visible = false;
      shown_command = s.command;
      status = "CONFIRM";
      previous_buttons = none;
    };
    local_auth_result = pending;
    pin = record s.pin {
      pin_entry = zeros 7;
      pin_first = zeros 7;
      pin_length = 0;
      selected_key = 0;
      pin_notice = none;
      pin_mode = if has_pin s.pin_hash then verify else create;
      pin_back_down = false;
      pin_back_cancelled = false;
      pin_previous_buttons = none;
    };
    lock = record s.lock { pin_lock_checked_at = 0; pin_lock_back_previous = false };
  }

  unfoldable pub wallet_ui_prompt : Device World → Bool × Device World
  wallet_ui_prompt s = flush (prompted s)

  -- The result is handed out once.
  unfoldable pub wallet_ui_take_local_authorization : Device World → Authorization × Device World
  wallet_ui_take_local_authorization s =
      if is_pending s.local_auth_result
      then (s.local_auth_result, s)
      else (s.local_auth_result, record s { local_auth_result = pending })

  abbrev contains : String → String → Bool
  contains text part = elim (find? text part) [ none ↦ false | some _ ↦ true ]

  unfoldable pub wallet_ui_result : String → Device World → Device World
  wallet_ui_result message s =
      let until = (ticks s.world + ms_to_ticks 5000) % 2 ^ 32 in
      let shown = render (record s {
        menu = close_menus s.menu;
        screen = record s.screen {
          removal_latched_until = 0;
          waiting = false;
          result_visible = true;
          result_until = until;
          status = if contains message "CANCEL" then "CANCELLED" else message;
        };
        pin = record s.pin { pin_mode = idle; pin_back_down = false };
      }) in
      record shown { screen = record shown.screen { previous_buttons = none } }

  unfoldable pub wallet_ui_command : String → Device World → Device World
  wallet_ui_command name s =
      let now = ticks s.world in
      if str_eq name "REMOVAL"
      then record s {
        screen = record s.screen {
          removal_latched_until = (now + ms_to_ticks 15000) % 2 ^ 32;
          command = name;
        };
      }
      else if str_eq name "AUTH"
          && not (s.removal_latched_until == 0)
          && reached s.removal_latched_until now
          && not (elapsed s.removal_latched_until now == 0)
      then s
      else record s { screen = record s.screen { command = name } }
