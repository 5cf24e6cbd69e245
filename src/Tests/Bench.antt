-- ===== src/Tests/Bench.antt =====
-- A device on a bench: its world is the clock's seven registers, its storage never fails, and no
-- button is down. bcrypt is replaced by a function that repeats the first six bytes of the key.
use key_wallet.Base.{
  ℕ, ◌==◌, List, [], ◌∷◌, ◌++◌, some, none, true, false, take, replicate, if◌then◌else◌,
}
use key_wallet.Wallet.Platform.{Platform, LockRecord, not_found}
use key_wallet.Wallet.Device.{Device, ready, idle, pending}

-- 61 bytes: the PIN, and zeros.
abbrev pub bench_hash : List ℕ → List ℕ
bench_hash key = take 6 key ++ replicate 55 0

instance abbrev pub bench : Platform
bench = record {
  World = List ℕ;
  ticks = λ w. 1000;
  ms_to_ticks = λ ms. ms;
  is_low = λ w pin. false;
  i2c_new_bus = λ port w. (true, w);
  i2c_add_device = λ address w. (true, w);
  display_transmit = λ w. (true, w);
  rtc_receive = λ register n w. (some (if register == 0 then w else 0 ∷ []), w);
  nvs_set_lock = λ r w. (true, w);
  nvs_set_bcrypt = λ h w. (true, w);
  nvs_set_u8 = λ k v w. (true, w);
  nvs_set_device_id = λ v w. (true, w);
  nvs_commit = λ w. (true, w);
  nvs_erase_key = λ k w. (true, w);
  nvs_flash_init = λ w. (true, w);
  nvs_open = λ w. (true, w);
  nvs_get_u8 = λ k w. none;
  nvs_get_bcrypt = λ w. none;
  nvs_get_lock = λ w. not_found;
  nvs_get_device_id = λ w. none;
  esp_random = λ w. (4711, w);
  fill_random = λ n w. (replicate n 7, w);
  gensalt = λ random. some random;
  crypt = λ key setting. some (bench_hash key);
  task_delay = λ t w. w;
  restart = λ w. w;
}

-- 2024-02-29, 12:30:45
abbrev pub leap_day : List ℕ
leap_day = 0x45 ∷ 0x30 ∷ 0x12 ∷ 4 ∷ 0x29 ∷ 0x02 ∷ 0x24 ∷ []

abbrev pub pin_123456 : List ℕ
pin_123456 = 49 ∷ 50 ∷ 51 ∷ 52 ∷ 53 ∷ 54 ∷ 0 ∷ []

abbrev pub fresh_lock : LockRecord
fresh_lock = record { version = 1; failures = 0; locked_until = 0; last_seen = 0 }

-- The PIN 123456 is set, nothing waits.
abbrev pub at_rest : Device (List ℕ)
at_rest = record {
  world = leap_day;
  oled = false;
  rtc = true;
  local_auth_result = pending;
  lock = record {
    pin_lock = fresh_lock;
    pin_lock_storage_ok = true;
    pin_lock_message = (0, 0);
    pin_lock_checked_at = 0;
    pin_lock_back_previous = false;
    pin_gate = ready;
  };
  pin = record {
    pin_mode = idle;
    pin_entry = replicate 7 0;
    pin_first = replicate 7 0;
    pin_hash = bench_hash pin_123456;
    pin_length = 0;
    selected_key = 0;
    pin_notice = none;
    pin_back_started = 0;
    pin_back_down = false;
    pin_back_cancelled = false;
    pin_previous_buttons = none;
    pin_setup_at_boot = false;
    pin_store_open = true;
    reset_challenge = replicate 5 0;
  };
  menu = record {
    settings_open = false;
    settings_detail_open = false;
    settings_change_confirm = false;
    settings_reset_confirm = false;
    reset_yes_armed = false;
    settings_change_success = false;
    settings_change_success_until = 0;
    settings_selection = 0;
    device_info_page = 0;
    device_info_id = 1;
    history_open = false;
    suppress_settings_back_release = false;
    reset_success_visible = false;
    reset_success_until = 0;
  };
  screen = record {
    command = "READY";
    shown_command = "READY";
    status = "READY";
    waiting = false;
    result_visible = false;
    result_until = 0;
    removal_latched_until = 0;
    previous_buttons = none;
    last_poll = 0;
  };
}
