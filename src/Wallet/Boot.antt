-- ===== src/Wallet/Boot.antt =====
-- wallet_ui.c, wallet_ui_init: what the device knows after a start. The configuration of the button
-- pins is not modelled.
use key_wallet.Base.{
  ℕ, ◌+◌, ◌%◌, ◌^◌, Bool, true, false, not, ◌&&◌, List, Option, none, some, ◌==◌, if◌then◌else◌,
  length, set,
}
use key_wallet.Wallet.Platform.{Platform, LockRead, not_found, failed, found}
use key_wallet.Wallet.Device.{Device, LockState, create}
use key_wallet.Wallet.Display.{render}
use key_wallet.Wallet.Task.{has_pin}

abbrev pub pin_hash_size : ℕ
pin_hash_size = 61

abbrev pub lock_record_size : ℕ
lock_record_size = 24

unfoldable pub read_hash : Option (List ℕ) → List ℕ → List ℕ
read_hash none hash = set hash 0 0
read_hash (some h) hash = if length h == pin_hash_size then h else set h 0 0

-- A record of another size or version shuts the store of the lock.
unfoldable pub read_lock : LockRead → LockState → LockState
read_lock not_found l = record l { pin_lock = record l.pin_lock { version = 1 } }
read_lock failed l = record l { pin_lock_storage_ok = false }
read_lock (found r size) l =
    if (size == lock_record_size) && (r.version == 1)
    then record l { pin_lock = r }
    else record l { pin_lock = r; pin_lock_storage_ok = false }

unfoldable pub non_zero : Option ℕ → Bool
non_zero none = false
non_zero (some n) = not (n == 0)

module _ ⦃p : Platform⦄ where
  open p use {
    World, i2c_new_bus, i2c_add_device, display_transmit, ticks, ms_to_ticks, nvs_flash_init,
    nvs_open, nvs_get_u8, nvs_erase_key, nvs_commit, nvs_get_bcrypt, nvs_get_lock,
    nvs_get_device_id, nvs_set_device_id, esp_random,
  }

  unfoldable pub commit_erased : Bool × World → World
  commit_erased (true, w) = (nvs_commit w).1
  commit_erased (false, w) = w

  -- The message that follows a reset of the device.
  unfoldable pub read_reset_done : Option ℕ → Device World → Device World
  read_reset_done none s = s
  read_reset_done (some reset_done) s =
      if reset_done == 1
      then record s {
        menu = record s.menu {
          reset_success_visible = true;
          reset_success_until = (ticks s.world + ms_to_ticks 3000) % 2 ^ 32;
        };
        world = commit_erased (nvs_erase_key "reset-done" s.world);
      }
      else s

  unfoldable pub with_id : ℕ → World → Device World → Device World
  with_id id w s = record s { world = w; menu = record s.menu { device_info_id = id } }

  unfoldable pub commit_id : ℕ → Bool × World → Device World → Device World
  commit_id id (false, w) s = with_id 0 w s
  commit_id id (true, w) s = let c = nvs_commit w in with_id (if c.0 then id else 0) c.1 s

  -- A new identifier, never 0, which is shown only if it could be stored.
  unfoldable pub new_id : ℕ × World → Device World → Device World
  new_id (random, w) s =
      let id = if random == 0 then 1 else random in commit_id id (nvs_set_device_id id w) s

  unfoldable pub read_id : Option ℕ → Device World → Device World
  read_id stored s =
      if non_zero stored
      then record s {
        menu = record s.menu { device_info_id = elim stored [ none ↦ 0 | some n ↦ n ] };
      }
      else new_id (esp_random s.world) s

  unfoldable pub load_store : Device World → Device World
  load_store s =
      let opened = record s { pin = record s.pin { pin_store_open = true } } in
      let s1 = read_reset_done (nvs_get_u8 "reset-done" opened.world) opened in
      let s2 = record s1 {
        pin = record s1.pin { pin_hash = read_hash (nvs_get_bcrypt s1.world) s1.pin_hash };
        lock = read_lock (nvs_get_lock s1.world) s1.lock;
      } in
      read_id (nvs_get_device_id s2.world) s2

  unfoldable pub opened_store : Bool × World → Device World → Device World
  opened_store (true, w) s = load_store (record s { world = w })
  opened_store (false, w) s = record s { world = w }

  unfoldable pub open_store : Bool × World → Device World → Device World
  open_store (true, w) s = opened_store (nvs_open w) s
  open_store (false, w) s = record s { world = w }

  -- Without a PIN the first one is created.
  unfoldable pub ask_for_pin : Device World → Device World
  ask_for_pin s = if has_pin s.pin_hash then s else record s {
    pin = record s.pin {
      pin_mode = create;
      pin_setup_at_boot = true;
      pin_length = 0;
      selected_key = 0;
      pin_previous_buttons = none;
    };
  }

  -- The second I2C bus with the clock; without it the start goes on.
  unfoldable pub start_rtc : Device World → Device World
  start_rtc s =
      let bus = i2c_new_bus 1 s.world in
      let device = i2c_add_device 0x68 bus.1 in
      if bus.0 then record s { rtc = device.0; world = device.1 } else record s { world = bus.1 }

  -- The first I2C bus with the display, and the bytes that set the display up.
  unfoldable pub start_oled : Device World → Bool × Device World
  start_oled s =
      let bus = i2c_new_bus 0 s.world in
      let device = i2c_add_device 0x3c bus.1 in
      let sent = display_transmit device.1 in
      if not bus.0
      then (false, record s { world = bus.1 })
      else if not device.0
      then (false, record s { world = device.1 })
      else (sent.0, record s { oled = sent.0; world = sent.1 })

  unfoldable pub init_from_store : Device World → Device World
  init_from_store s = render (ask_for_pin (open_store (nvs_flash_init s.world) s))

  -- Without a display the function returns at once: the clock and the store are not set up.
  unfoldable pub wallet_ui_init : Device World → Device World
  wallet_ui_init s =
      let started = start_oled s in
      if started.0 then init_from_store (start_rtc started.1) else started.1
