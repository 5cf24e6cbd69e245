-- ===== src/Wallet/Poll.antt =====
-- wallet_ui.c, `wallet_ui_task`: the periodic poll, which looks at the lock before it lets a PIN that
-- is to be verified be entered.
use key_wallet.Base.{ℕ, ◌==◌, none, Bool, true, false, not, ◌&&◌, ◌||◌, ltb, leb}
use key_wallet.Base.{if◌then◌else◌}
use key_wallet.Wallet.Platform.{Platform}
use key_wallet.Wallet.Device.{
  Device, Gate, Mode, ready, idle, verify, change_current, reset_verify, cancelled,
}
use key_wallet.Wallet.Display.{render}
use key_wallet.Wallet.Lock.{pin_lock_check}
use key_wallet.Wallet.Pin.{pin_clear}
use key_wallet.Wallet.Keypad.{keypad, elapsed, reached}
use key_wallet.Wallet.Idle.{Stage, returned, goes_on, then_on, bool_eq, idle_screen}

abbrev pub pin_requires_verification : Mode → Bool
pin_requires_verification verify = true
pin_requires_verification change_current = true
pin_requires_verification reset_verify = true
pin_requires_verification _ = false

abbrev pub is_idle : Mode → Bool
is_idle idle = true
is_idle _ = false

abbrev pub is_ready : Gate → Bool
is_ready ready = true
is_ready _ = false

module _ ⦃p : Platform⦄ where
  open p use {World, ticks, ms_to_ticks, is_low}

  -- The gate is looked at again. A notice is dropped when the lock opens.
  unfoldable pub refresh_gate : ℕ → Device World → Device World
  refresh_gate now s =
      let (gate, _, s') = pin_lock_check s in
      record s' {
        lock = record s'.lock { pin_gate = gate; pin_lock_checked_at = now };
        pin = record s'.pin {
          pin_notice = if not (is_ready s.pin_gate) && is_ready gate then none else s'.pin_notice;
        };
      }

  -- Back, while the lock is shut, leaves the PIN entry.
  unfoldable pub leave_locked : Device World → Device World
  unfolding pin_clear
  leave_locked s =
      let left =
        (if s.settings_open
          then record s {
            pin = record (pin_clear s.pin) { pin_notice = none; pin_mode = idle };
            menu = record s.menu {
              settings_detail_open = false;
              settings_change_confirm = false;
              settings_reset_confirm = false;
              suppress_settings_back_release = true;
            };
            screen = record s.screen { previous_buttons = none };
          }
          else record s {
            pin = record (pin_clear s.pin) { pin_notice = none; pin_mode = idle };
            local_auth_result = cancelled;
            screen = record s.screen { previous_buttons = none };
          }) in
      let shown = render left in
      record shown { lock = record shown.lock { pin_lock_back_previous = true } }

  unfoldable pub locked : Bool → Device World → Device World
  locked refreshed s =
      let back = is_low s.world 5 in
      if back && not s.pin_lock_back_previous
      then leave_locked s
      else (let shown =
            (if refreshed || not (bool_eq back s.pin_lock_back_previous) then render s else s) in
          record shown { lock = record shown.lock { pin_lock_back_previous = back } })

  unfoldable pub gated : Bool → Device World → Stage World
  gated refreshed s =
      if not (is_ready s.pin_gate)
      then returned (locked refreshed s)
      else (let shown = (if refreshed then render s else s) in
          goes_on (record shown { lock = record shown.lock { pin_lock_back_previous = false } }))

  unfoldable pub check_gate : ℕ → Device World → Stage World
  check_gate now s =
      let refreshed =
        (s.pin_lock_checked_at == 0
          || leb (ms_to_ticks 1000) (elapsed now s.pin_lock_checked_at)) in
      if not (pin_requires_verification s.pin_mode)
      then goes_on s
      else gated refreshed (if refreshed then refresh_gate now s else s)

  unfoldable pub poll_ui : ℕ → Device World → Device World
  poll_ui now s =
      then_on (check_gate now s) λ s. if is_idle s.pin_mode then idle_screen now s else keypad now s

  -- The message after a reset stays for its time.
  unfoldable pub poll : ℕ → Device World → Device World
  poll now s =
      if s.reset_success_visible
      then (if reached now s.reset_success_until
          then render (record s {
            menu = record s.menu { reset_success_visible = false };
            pin = record s.pin { pin_previous_buttons = none };
            screen = record s.screen { previous_buttons = none };
          })
          else s)
      else poll_ui now s

  unfoldable pub wallet_ui_task : Device World → Device World
  wallet_ui_task s =
      let now = ticks s.world in
      if ltb (elapsed now s.last_poll) (ms_to_ticks 25)
      then s
      else poll now (record s { screen = record s.screen { last_poll = now } })
