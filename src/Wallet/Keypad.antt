-- ===== src/Wallet/Keypad.antt =====
-- wallet_ui.c, `wallet_ui_task` while a PIN is entered: the buttons move a selection over the keypad,
-- add digits, delete them, cancel and submit.
use key_wallet.Base.{ℕ, ◌+◌, ◌-◌, ◌*◌, ◌/◌, ◌%◌, ◌^◌, List, [], ◌∷◌, Option, none, some}
use key_wallet.Base.{Bool, true, false, not, ◌&&◌, ◌==◌, ltb, leb, if◌then◌else◌, get_or, set}
use key_wallet.Wallet.Platform.{Platform}
use key_wallet.Wallet.Device.{Device, PinState, Keys, Mode, idle, cancelled, reset_challenge}
use key_wallet.Wallet.Display.{render}
use key_wallet.Wallet.Pin.{pin_submit, zeros}

-- `pin_keys`: "123456789 0 ", the spaces being no keys
abbrev pub pin_keys : List ℕ
pin_keys = 49 ∷ 50 ∷ 51 ∷ 52 ∷ 53 ∷ 54 ∷ 55 ∷ 56 ∷ 57 ∷ 32 ∷ 48 ∷ 32 ∷ []

abbrev pub key_at : ℕ → ℕ
key_at i = get_or pin_keys i 0

-- `(TickType_t)(now - since)`, and `(int32_t)(now - until) >= 0`
abbrev pub elapsed : ℕ → ℕ → ℕ
elapsed now since = (now + 2 ^ 32 - since) % 2 ^ 32

abbrev pub reached : ℕ → ℕ → Bool
reached now until = ltb (elapsed now until) (2 ^ 31)

-- `p & ~pin_previous_buttons`
unfoldable pub newly_pressed : Keys → Option Keys → Keys
newly_pressed p none = record {
  up = false;
  right = false;
  down = false;
  left = false;
  select = false;
  back = false;
  submit = false;
}
newly_pressed p (some q) = record {
  up = p.up && not q.up;
  right = p.right && not q.right;
  down = p.down && not q.down;
  left = p.left && not q.left;
  select = p.select && not q.select;
  back = p.back && not q.back;
  submit = p.submit && not q.submit;
}

-- The key that the arrows lead to; from a space to the 0 key.
unfoldable pub move_selection : Keys → ℕ → ℕ
move_selection newly selected =
    let row = selected / 3 in
    let col = selected % 3 in
    let row_up = (if newly.up then (row + 3) % 4 else row) in
    let row_down = (if newly.down then (row_up + 1) % 4 else row_up) in
    let col_right = (if newly.right then (col + 1) % 3 else col) in
    let col_left = (if newly.left then (col_right + 2) % 3 else col_right) in
    let candidate = row_down * 3 + col_left in if key_at candidate == 32 then 10 else candidate

abbrev pub is_challenge : Mode → Bool
is_challenge reset_challenge = true
is_challenge _ = false

abbrev pub required_digits : Mode → ℕ
required_digits mode = if is_challenge mode then 4 else 6

unfoldable pub enter_digit : Keys → PinState → PinState
enter_digit newly s =
    if newly.select
      && ltb s.pin_length (required_digits s.pin_mode)
      && not (key_at s.selected_key == 32)
    then record s {
      pin_entry = set (set s.pin_entry s.pin_length (key_at s.selected_key)) (s.pin_length + 1) 0;
      pin_length = s.pin_length + 1;
      pin_notice = none;
    }
    else s

unfoldable pub start_back : Keys → ℕ → PinState → PinState
start_back newly now s =
    if newly.back
    then record s { pin_back_down = true; pin_back_cancelled = false; pin_back_started = now }
    else s

-- The release of Back deletes a digit, unless the press has cancelled.
unfoldable pub release_back : Keys → PinState → PinState
release_back p s =
    if s.pin_back_down && not p.back
    then (if not s.pin_back_cancelled && not (s.pin_length == 0)
        then record s {
          pin_entry = set s.pin_entry (s.pin_length - 1) 0;
          pin_length = s.pin_length - 1;
          pin_back_down = false;
        }
        else record s { pin_back_down = false })
    else s

abbrev pub wipe_entry : PinState → PinState
wipe_entry s = record s {
  pin_entry = zeros 7;
  pin_first = zeros 7;
  pin_length = 0;
  pin_back_cancelled = true;
}

module _ ⦃p : Platform⦄ where
  open p use {World, is_low, ms_to_ticks}

  unfoldable pub read_keys : World → Keys
  read_keys w = record {
    up = is_low w 21;
    right = is_low w 18;
    down = is_low w 17;
    left = is_low w 10;
    select = is_low w 7;
    back = is_low w 5;
    submit = is_low w 6;
  }

  -- A Back held for a second leaves the settings, or cancels the operation that waits.
  unfoldable pub hold_back : Keys → ℕ → Device World → Device World
  hold_back keys now s =
      if not s.pin_setup_at_boot
        && s.pin_back_down
        && keys.back
        && not s.pin_back_cancelled
        && leb (ms_to_ticks 1000) (elapsed now s.pin_back_started)
      then (if s.settings_open
          then record s {
            pin = record (wipe_entry s.pin) { pin_mode = idle; pin_notice = none };
            menu = record s.menu {
              settings_detail_open = false;
              settings_change_confirm = false;
              settings_reset_confirm = false;
              suppress_settings_back_release = true;
            };
          }
          else record s { pin = wipe_entry s.pin; local_auth_result = cancelled })
      else s

  -- What the arrows, Select and a new press of Back change.
  unfoldable pub edit : Keys → ℕ → PinState → PinState
  edit newly now s =
      start_back newly now
        (enter_digit newly (record s { selected_key = move_selection newly s.selected_key }))

  unfoldable pub edit_keys : Keys → Keys → ℕ → Device World → Device World
  edit_keys keys newly now s =
      let held = hold_back keys now (record s { pin = edit newly now s.pin }) in
      record held { pin = release_back keys held.pin }

  unfoldable pub keypad : ℕ → Device World → Device World
  keypad now s =
      let keys = read_keys s.world in
      let newly = newly_pressed keys s.pin_previous_buttons in
      let edited = edit_keys keys newly now s in
      let submitted = (if newly.submit then pin_submit edited else edited) in
      render (record submitted { pin = record submitted.pin { pin_previous_buttons = some keys } })
