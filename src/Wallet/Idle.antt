-- ===== src/Wallet/Idle.antt =====
-- wallet_ui.c, `wallet_ui_task` while no PIN is entered: results and commands come and go on the
-- screen, and the buttons walk through the settings. A stage says whether the task returns there.
use text.Mathlib.Text.{◌==◌ as str_eq}
use key_wallet.Base.{ℕ, ◌+◌, ◌-◌, ◌%◌, Option, none, some}
use key_wallet.Base.{Bool, true, false, not, ◌&&◌, ◌||◌, ◌==◌, if◌then◌else◌}
use key_wallet.Wallet.Platform.{Platform}
use key_wallet.Wallet.Device.{Device, MenuState, Pins, change_current}
use key_wallet.Wallet.Display.{render}
use key_wallet.Wallet.Pin.{zeros, pin_clear, reset_challenge_start}
use key_wallet.Wallet.Keypad.{reached}
use key_wallet.Wallet.Task.{close_menus}

pub data Stage (W : Type 0) : Type 0 where
  returned : Device W → Stage W
  goes_on : Device W → Stage W

abbrev pub bool_eq : Bool → Bool → Bool
bool_eq true b = b
bool_eq false b = not b

-- `pins != previous_buttons`
unfoldable pub pins_changed : Pins → Option Pins → Bool
pins_changed pins none = true
pins_changed pins (some q) = not (
    bool_eq pins.pin5 q.pin5
    && bool_eq pins.pin6 q.pin6
    && bool_eq pins.pin21 q.pin21
    && bool_eq pins.pin17 q.pin17
    && bool_eq pins.pin7 q.pin7)

abbrev released : Bool → Bool → Bool
released level previous = level && not previous

abbrev pressed : Bool → Bool → Bool
pressed level previous = not level && previous

-- The settings, Back released.
unfoldable pub menu_back : MenuState → MenuState
menu_back m =
    if m.suppress_settings_back_release
    then record m { suppress_settings_back_release = false }
    else if m.settings_detail_open
    then record m {
      settings_detail_open = false;
      settings_change_confirm = false;
      settings_reset_confirm = false;
      settings_change_success = false;
    }
    else record m { settings_open = false }

-- The list of settings: up, down and open.
unfoldable pub menu_list : Pins → Pins → MenuState → MenuState
menu_list pins previous m =
    if pressed pins.pin21 previous.pin21
    then record m { settings_selection = (m.settings_selection + 2) % 3 }
    else if pressed pins.pin17 previous.pin17
    then record m { settings_selection = (m.settings_selection + 1) % 3 }
    else if pressed pins.pin7 previous.pin7
    then record m {
      settings_detail_open = true;
      device_info_page = 0;
      settings_change_confirm = m.settings_selection == 1 || m.settings_change_confirm;
      settings_reset_confirm = m.settings_selection == 2 || m.settings_reset_confirm;
      reset_yes_armed = if m.settings_selection == 2 then false else m.reset_yes_armed;
    }
    else m

-- Outside the settings: Back opens them, Submit toggles the history.
unfoldable pub menu_closed : Pins → Pins → MenuState → MenuState
menu_closed pins previous m =
    if released pins.pin5 previous.pin5 && not m.history_open
    then record m { settings_open = true; settings_selection = 0; settings_detail_open = false }
    else if released pins.pin6 previous.pin6 && not m.settings_open
    then record m { history_open = not m.history_open }
    else m

module _ ⦃p : Platform⦄ where
  open p use {World, ticks, ms_to_ticks, is_low}

  -- The change of the PIN is confirmed: the current one is asked for.
  unfoldable pub start_change : Device World → Device World
  unfolding pin_clear
  start_change s = record s {
    menu = record s.menu { settings_change_confirm = false };
    pin = record (pin_clear s.pin) {
      pin_mode = change_current;
      pin_notice = none;
      pin_first = zeros 7;
      selected_key = 0;
      pin_back_down = false;
      pin_back_cancelled = false;
      pin_previous_buttons = none;
    };
    lock = record s.lock { pin_lock_checked_at = 0 };
  }

  unfoldable pub settings : Pins → Pins → Device World → Device World
  settings pins previous s =
      if released pins.pin5 previous.pin5
      then record s { menu = menu_back s.menu }
      else if s.settings_change_confirm && pressed pins.pin7 previous.pin7
      then start_change s
      else if s.settings_detail_open && s.settings_selection == 0 && pressed pins.pin7 previous.pin7
      then record s { menu = record s.menu { device_info_page = 1 - s.device_info_page } }
      else if not s.settings_detail_open
      then record s { menu = menu_list pins previous s.menu }
      else s

  unfoldable pub navigate : Pins → Option Pins → Device World → Device World
  navigate pins none s = s
  navigate pins (some previous) s =
      if not s.waiting && not s.result_visible && str_eq s.status "READY"
      then (if s.settings_open
          then settings pins previous s
          else record s { menu = menu_closed pins previous s.menu })
      else s

  -- `render` and `previous_buttons = pins`
  abbrev show : Pins → Device World → Device World
  show pins s =
      let shown = render s in
      record shown { screen = record shown.screen { previous_buttons = some pins } }

  -- The change of the PIN was confirmed on the screen for long enough.
  unfoldable pub end_change_success : ℕ → Pins → Device World → Stage World
  end_change_success now pins s =
      if s.settings_change_success && reached now s.settings_change_success_until
      then returned (
          show pins (record s {
            menu = record s.menu { settings_change_success = false; settings_detail_open = false };
          }))
      else goes_on s

  -- A result was shown for long enough.
  unfoldable pub end_result : ℕ → Pins → Device World → Stage World
  end_result now pins s =
      if not s.waiting && s.result_visible && reached now s.result_until
      then returned (
          show pins (record s {
            menu = close_menus s.menu;
            screen = record s.screen {
              result_visible = false;
              shown_command = "READY";
              status = "READY";
              removal_latched_until = 0;
              command = "READY";
            };
          }))
      else goes_on s

  -- A new command takes the screen.
  unfoldable pub next_command : Device World → Device World
  next_command s =
      if not s.waiting
        && not s.result_visible
        && not (str_eq s.command s.shown_command)
        && not (str_eq s.command "GET INFO")
      then record s {
        menu = close_menus s.menu;
        screen = record s.screen {
          shown_command = s.command;
          status = "WORKING";
          previous_buttons = none;
        };
      }
      else s

  -- The reset is confirmed by a press of Select that starts after the question was shown.
  unfoldable pub confirm_reset : Pins → Device World → Stage World
  confirm_reset pins s =
      if not s.waiting
        && not s.result_visible
        && s.settings_open
        && s.settings_reset_confirm
        && str_eq s.status "READY"
      then (if not (is_low s.world 7)
          then goes_on (record s { menu = record s.menu { reset_yes_armed = true } })
          else if s.reset_yes_armed
          then returned (
              let started = reset_challenge_start (record s {
                menu = record s.menu { reset_yes_armed = false; settings_reset_confirm = false };
              }) in
              render (record started {
                screen = record started.screen { previous_buttons = some pins };
              }))
          else goes_on s)
      else goes_on s

  unfoldable pub finish_idle : Pins → Device World → Device World
  finish_idle pins s =
      let moved = navigate pins s.previous_buttons s in
      if pins_changed pins moved.previous_buttons then show pins moved else moved

  unfoldable pub read_pins : World → Pins
  read_pins w = record {
    pin5 = not (is_low w 5);
    pin6 = not (is_low w 6);
    pin21 = not (is_low w 21);
    pin17 = not (is_low w 17);
    pin7 = not (is_low w 7);
  }

  abbrev pub then_on : Stage World → (Device World → Device World) → Device World
  then_on (returned s) rest = s
  then_on (goes_on s) rest = rest s

  unfoldable pub idle_screen : ℕ → Device World → Device World
  idle_screen now s =
      let pins = read_pins s.world in
      then_on (end_change_success now pins s) λ s.
        then_on (end_result now pins s)
          λ s. then_on (confirm_reset pins (next_command s)) (finish_idle pins)
