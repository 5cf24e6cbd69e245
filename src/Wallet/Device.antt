-- ===== src/Wallet/Device.antt =====
-- The static variables of wallet_ui.c, in four groups.
use key_wallet.Base.{ℕ, List, Option, Bool}
use Prim.Native.String.{String}
use key_wallet.Wallet.Platform.{LockRecord}

-- `pin_gate_t`
pub data Gate : Type 0 where
  ready wait rtc_error flash_error : Gate

-- `pin_mode_t`
pub data Mode : Type 0 where
  idle create retype verify change_current change_new change_retype : Mode
  reset_challenge reset_verify : Mode

-- `local_auth_result`: 0, 1 and -1
pub data Authorization : Type 0 where
  pending granted cancelled : Authorization

-- The literals that `pin_notice` points at, when it is not null.
pub data Notice : Type 0 where
  mismatch flash_failed hash_failed wrong_pin : Notice

pub record LockState : Type 0 where
  pub pin_lock : LockRecord
  pub pin_lock_storage_ok : Bool
  -- the two numbers of "WAIT mm:ss"
  pub pin_lock_message : ℕ × ℕ
  pub pin_lock_checked_at : ℕ
  pub pin_lock_back_previous : Bool
  pub pin_gate : Gate

-- The bits of the bitmap `p` of `wallet_ui_task`: the buttons that are down.
pub record Keys : Type 0 where
  pub up : Bool
  pub right : Bool
  pub down : Bool
  pub left : Bool
  pub select : Bool
  pub back : Bool
  pub submit : Bool

-- The bits of the bitmap `pins`: the levels of GPIO 5, 6, 21, 17 and 7, high when released.
pub record Pins : Type 0 where
  pub pin5 : Bool
  pub pin6 : Bool
  pub pin21 : Bool
  pub pin17 : Bool
  pub pin7 : Bool

-- `pin_entry` and `pin_first` are buffers of 7 bytes, `pin_hash` of 61. For a bitmap of buttons,
-- `none` is the -1 of the code.
pub record PinState : Type 0 where
  pub pin_mode : Mode
  pub pin_entry : List ℕ
  pub pin_first : List ℕ
  pub pin_hash : List ℕ
  pub pin_length : ℕ
  pub selected_key : ℕ
  pub pin_notice : Option Notice
  pub pin_back_started : ℕ
  pub pin_back_down : Bool
  pub pin_back_cancelled : Bool
  pub pin_previous_buttons : Option Keys
  pub pin_setup_at_boot : Bool
  pub pin_store_open : Bool
  pub reset_challenge : List ℕ

pub record MenuState : Type 0 where
  pub settings_open : Bool
  pub settings_detail_open : Bool
  pub settings_change_confirm : Bool
  pub settings_reset_confirm : Bool
  pub reset_yes_armed : Bool
  pub settings_change_success : Bool
  pub settings_change_success_until : ℕ
  pub settings_selection : ℕ
  pub device_info_page : ℕ
  pub device_info_id : ℕ
  pub history_open : Bool
  pub suppress_settings_back_release : Bool
  pub reset_success_visible : Bool
  pub reset_success_until : ℕ

-- The labels are string literals, one for each text, so pointers are compared as texts.
pub record ScreenState : Type 0 where
  pub command : String
  pub shown_command : String
  pub status : String
  pub waiting : Bool
  pub result_visible : Bool
  pub result_until : ℕ
  pub removal_latched_until : ℕ
  pub previous_buttons : Option Pins
  pub last_poll : ℕ

-- `oled` and `rtc` say that the handles are not null.
pub record Device (W : Type 0) : Type 0 where
  pub world : W
  pub oled : Bool
  pub rtc : Bool
  pub local_auth_result : Authorization
  pub lock : LockState
  pub open lock use *
  pub pin : PinState
  pub open pin use *
  pub menu : MenuState
  pub open menu use *
  pub screen : ScreenState
  pub open screen use *
