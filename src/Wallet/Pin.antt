-- ===== src/Wallet/Pin.antt =====
-- wallet_ui.c, `pin_clear` to `pin_submit`: what happens to a PIN when it is submitted. bcrypt is
-- `crypt`, and the literals behind `pin_notice` are the constructors of `Notice`.
pub mod Match
pub mod Grant
use key_wallet.Base.{ℕ, zero, suc, ◌+◌, ◌*◌, ◌/◌, ◌%◌, ◌^◌, List, [], ◌∷◌, Option, none, some}
use key_wallet.Base.{Bool, true, false, not, ◌&&◌, ◌||◌, ◌==◌, if◌then◌else◌, bit_or, bit_xor}
use key_wallet.Base.{take, get_or, replicate, list_eq, ◌>>=◌}
use key_wallet.Wallet.Platform.{Platform}
use key_wallet.Wallet.Device.{
  Device, PinState, Gate, Mode, Authorization, Notice, ready, flash_error, idle, create, retype,
  verify, change_current, change_new, change_retype, reset_challenge, reset_verify, granted,
  mismatch, flash_failed, hash_failed, wrong_pin,
}
use key_wallet.Wallet.Display.{render}
use key_wallet.Wallet.Lock.{pin_lock_check, pin_lock_record_result}

abbrev pub zeros : ℕ → List ℕ
zeros n = replicate n 0

-- `difference |= candidate[i] ^ stored[i]`, for `n` more indices from `i` on.
unfoldable pub difference_from : ℕ → ℕ → ℕ → List ℕ → List ℕ → ℕ
difference_from zero i difference candidate stored = difference
difference_from (suc n) i difference candidate stored =
    let bits = bit_xor (get_or candidate i 0) (get_or stored i 0) in
    difference_from n (i + 1) (bit_or difference bits) candidate stored

unfoldable pub pin_hash_matches : List ℕ → List ℕ → Bool
pin_hash_matches candidate stored = difference_from 60 0 0 candidate stored == 0

unfoldable pub pin_clear : PinState → PinState
pin_clear s = record s { pin_entry = zeros 7; pin_length = 0 }

-- The four digits of `%04lu`, and the zero byte.
abbrev pub four_digits : ℕ → List ℕ
four_digits n =
    (n / 1000 % 10 + 48) ∷ (n / 100 % 10 + 48) ∷ (n / 10 % 10 + 48) ∷ (n % 10 + 48) ∷ 0 ∷ []

module _ ⦃p : Platform⦄ where
  open p use {
    World, nvs_set_bcrypt, nvs_set_u8, nvs_commit, esp_random, fill_random, gensalt, crypt, ticks,
    ms_to_ticks, task_delay, restart,
  }

  -- The writes of `pin_store_new`, for the hash that was generated.
  store_hash : Option (List ℕ) → Device World → Bool × Device World
  store_hash none s = (false, s)
  store_hash (some generated) s =
      if not s.pin_store_open
      then (false, s)
      else (let (set, w) = nvs_set_bcrypt generated s.world in
          if not set
          then (false, record s { world = w })
          else (let (committed, w') = nvs_commit w in
              if not committed
              then (false, record s { world = w' })
              else (true, record s { world = w'; pin = record s.pin { pin_hash = generated } })))

  unfoldable pub pin_store_new : List ℕ → Device World → Bool × Device World
  unfolding store_hash
  pin_store_new new_pin s =
      let (random, w) = fill_random 16 s.world in
      store_hash (gensalt random >>= λ salt. crypt new_pin salt) (record s { world = w })

  unfoldable pub reset_challenge_start : Device World → Device World
  unfolding pin_clear
  reset_challenge_start s =
      let (random, w) = esp_random s.world in
      record s {
        world = w;
        pin = record (pin_clear s.pin) {
          reset_challenge = four_digits (random % 10000);
          selected_key = 0;
          pin_notice = none;
          pin_back_down = false;
          pin_back_cancelled = false;
          pin_previous_buttons = none;
          pin_mode = reset_challenge;
        };
      }

  unfoldable pub reset_schedule_wipe : Device World → Bool × Device World
  reset_schedule_wipe s =
      if not s.pin_store_open
      then (false, s)
      else (let (set, w) = nvs_set_u8 "wipe-pending" 1 s.world in
          if not set
          then (false, record s { world = w })
          else (let (committed, w') = nvs_commit w in (committed, record s { world = w' })))

  -- PIN_RESET_CHALLENGE
  submit_challenge : Device World → Device World
  unfolding pin_clear
  submit_challenge s =
      let matched = list_eq (take 4 s.pin_entry) (take 4 s.reset_challenge) in
      if not (s.pin_length == 4)
      then s
      else if matched
      then record s {
        pin = record (pin_clear s.pin) { pin_mode = reset_verify; pin_notice = none };
        lock = record s.lock { pin_lock_checked_at = 0 };
      }
      else record s { pin = pin_clear s.pin }

  -- PIN_CREATE and PIN_CHANGE_NEW: the entry is kept for the comparison.
  submit_first : Mode → Device World → Device World
  unfolding pin_clear
  submit_first next s = record s {
    pin = record (pin_clear s.pin) { pin_first = s.pin_entry; pin_mode = next; pin_notice = none };
  }

  -- What PIN_RETYPE does once the PIN is stored.
  created : Device World → Device World
  created s = render (
      if s.pin_setup_at_boot
      then record s {
        pin = record s.pin { pin_mode = idle; pin_setup_at_boot = false };
        screen = record s.screen {
          waiting = false;
          shown_command = "READY";
          status = "READY";
          command = "READY";
        };
      }
      else record s { pin = record s.pin { pin_mode = idle }; local_auth_result = granted })

  -- PIN_RETYPE
  submit_retype : Device World → Device World
  unfolding created pin_clear
  submit_retype s =
      if not (list_eq (take 6 s.pin_first) (take 6 s.pin_entry))
      then record s {
        pin = record (pin_clear s.pin) {
          pin_first = zeros 7;
          pin_mode = create;
          pin_notice = some mismatch;
          selected_key = 0;
        };
      }
      else (let (stored, s') = pin_store_new s.pin_entry s in
          let cleared = record s' { pin = record (pin_clear s'.pin) { pin_first = zeros 7 } } in
          if not stored
          then record cleared { pin = record cleared.pin { pin_notice = some flash_failed } }
          else created cleared)

  -- What PIN_CHANGE_RETYPE does once the PIN is stored.
  changed : Device World → Device World
  changed s = render (record s {
    pin = record s.pin { pin_mode = idle; pin_notice = none };
    menu = record s.menu {
      settings_change_success = true;
      settings_change_success_until = (ticks s.world + ms_to_ticks 5000) % 2 ^ 32;
    };
  })

  -- PIN_CHANGE_RETYPE
  submit_change_retype : Device World → Device World
  unfolding changed pin_clear
  submit_change_retype s =
      if not (list_eq (take 6 s.pin_first) (take 6 s.pin_entry))
      then record s {
        pin = record (pin_clear s.pin) {
          pin_first = zeros 7;
          pin_mode = change_new;
          pin_notice = some mismatch;
        };
      }
      else (let (stored, s') = pin_store_new s.pin_entry s in
          let cleared = record s' { pin = record (pin_clear s'.pin) { pin_first = zeros 7 } } in
          if not stored
          then record cleared {
            pin = record cleared.pin { pin_mode = change_new; pin_notice = some flash_failed };
          }
          else changed cleared)

  -- PIN_RESET_VERIFY with the right PIN
  reset_confirmed : Device World → Device World
  reset_confirmed s =
      let (scheduled, s') = reset_schedule_wipe s in
      if not scheduled
      then record s' { pin = record s'.pin { pin_notice = some flash_failed } }
      else (let shown = render (record s' {
        pin = record s'.pin { pin_mode = idle };
        menu = record s'.menu { settings_open = false };
        screen = record s'.screen { shown_command = "RESET DEVICE"; status = "RESETTING" };
      }) in
          record shown { world = restart (task_delay (ms_to_ticks 500) shown.world) })

  -- The end of `pin_submit`: what the result of a verification leads to, by the mode.
  unfoldable pub verified : Mode → Bool → Device World → Device World
  unfolding reset_confirmed
  verified mode false s = record s { pin = record s.pin { pin_notice = some wrong_pin } }
  verified change_current true s = record s {
    pin = record s.pin { pin_mode = change_new; pin_notice = none; selected_key = 0 };
  }
  verified reset_verify true s = reset_confirmed s
  verified mode true s = record s {
    pin = record s.pin { pin_mode = idle; pin_notice = none };
    local_auth_result = granted;
  }

  -- The result is recorded before anything is done with it.
  unfoldable pub record_and_finish : Bool → ℕ → Device World → Device World
  record_and_finish correct now s =
      let (recorded, s') = pin_lock_record_result correct now s in
      if not recorded
      then record s' {
        lock = record s'.lock { pin_gate = flash_error };
        pin = record s'.pin { pin_notice = some flash_failed };
      }
      else (let (gate, _, s'') = pin_lock_check s' in
          verified s''.pin_mode correct (record s'' { lock = record s''.lock { pin_gate = gate } }))

  -- The candidate hash of the PIN that was entered, `none` where bcrypt failed.
  unfoldable pub check_candidate : Option (List ℕ) → ℕ → Device World → Device World
  unfolding pin_clear
  check_candidate none now s = record s {
    lock = record s.lock { pin_lock_storage_ok = false; pin_gate = flash_error };
    pin = record (pin_clear s.pin) { pin_notice = some hash_failed };
  }
  check_candidate (some candidate) now s =
      record_and_finish (pin_hash_matches candidate s.pin_hash) now
        (record s { pin = pin_clear s.pin })

  -- Past the gate, `now` is the time that the gate was checked at.
  pass_gate : Gate → Option ℕ → Device World → Device World
  pass_gate ready (some now) s = check_candidate (crypt s.pin_entry s.pin_hash) now s
  pass_gate ready none s = check_candidate (crypt s.pin_entry s.pin_hash) 0 s
  pass_gate gate now s = record s { pin = pin_clear s.pin }

  -- PIN_VERIFY, PIN_CHANGE_CURRENT and PIN_RESET_VERIFY
  unfoldable pub submit_verify : Device World → Device World
  unfolding pass_gate
  submit_verify s =
      let (gate, now, s') = pin_lock_check s in
      pass_gate gate now (record s' { lock = record s'.lock { pin_gate = gate } })

  unfoldable pub submit_full : Mode → Device World → Device World
  unfolding submit_first submit_retype submit_change_retype
  submit_full create s = submit_first retype s
  submit_full retype s = submit_retype s
  submit_full change_new s = submit_first change_retype s
  submit_full change_retype s = submit_change_retype s
  submit_full mode s = submit_verify s

  unfoldable pub submit_in : Mode → Device World → Device World
  unfolding submit_challenge
  submit_in reset_challenge s = submit_challenge s
  submit_in mode s = if not (s.pin_length == 6) then s else submit_full mode s

  unfoldable pub pin_submit : Device World → Device World
  unfolding submit_in
  pin_submit s = submit_in s.pin_mode s
