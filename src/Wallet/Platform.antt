-- ===== src/Wallet/Platform.antt =====
-- What wallet_ui.c calls and does not implement: FreeRTOS, the GPIO and I2C drivers, the NVS store,
-- the random generator and bcrypt. A call that can act on the outside takes the world and returns
-- the one after it; ticks and pins are read off the world, so they may change at any such call.
use key_wallet.Base.{ℕ, List, Option, Bool}
use Prim.Native.String.{String}

-- `pin_lock_record_t`
pub record LockRecord : Type 0 where
  pub version : ℕ
  pub failures : ℕ
  pub locked_until : ℕ
  pub last_seen : ℕ

-- The outcomes of `nvs_get_blob` on the lock record: ESP_ERR_NVS_NOT_FOUND, another error, or the
-- record with the size that was read.
pub data LockRead : Type 0 where
  not_found failed : LockRead
  found : LockRecord → ℕ → LockRead

pub record Platform : Type 1 where
  pub World : Type 0
  -- `xTaskGetTickCount`, and `pdMS_TO_TICKS` at the configured tick rate
  pub ticks : World → ℕ
  pub ms_to_ticks : ℕ → ℕ
  -- `!gpio_get_level(pin)`: the button at this pin is down
  pub is_low : World → ℕ → Bool
  -- `i2c_new_master_bus` on a port and `i2c_master_bus_add_device` of an address: true is ESP_OK
  pub i2c_new_bus : ℕ → World → Bool × World
  pub i2c_add_device : ℕ → World → Bool × World
  -- `i2c_master_transmit` to the display; its bytes are the drawing, which is not modelled
  pub display_transmit : World → Bool × World
  -- `i2c_master_transmit_receive` on the clock: register, number of bytes
  pub rtc_receive : ℕ → ℕ → World → Option (List ℕ) × World
  -- `nvs_set_blob(pin_nvs, "pin-lock", …)`, `nvs_set_str(pin_nvs, "bcrypt", …)`, `nvs_set_u8`,
  -- `nvs_set_u32(pin_nvs, "device-id", …)`, `nvs_commit`: true is ESP_OK
  pub nvs_set_lock : LockRecord → World → Bool × World
  pub nvs_set_bcrypt : List ℕ → World → Bool × World
  pub nvs_set_u8 : String → ℕ → World → Bool × World
  pub nvs_set_device_id : ℕ → World → Bool × World
  pub nvs_commit : World → Bool × World
  pub nvs_erase_key : String → World → Bool × World
  -- `nvs_flash_init`, `nvs_open("device-pin", …)` and the reads
  pub nvs_flash_init : World → Bool × World
  pub nvs_open : World → Bool × World
  pub nvs_get_u8 : String → World → Option ℕ
  pub nvs_get_bcrypt : World → Option (List ℕ)
  pub nvs_get_lock : World → LockRead
  pub nvs_get_device_id : World → Option ℕ
  -- `esp_random` and `esp_fill_random`
  pub esp_random : World → ℕ × World
  pub fill_random : ℕ → World → List ℕ × World
  -- `_crypt_gensalt_blowfish_rn("$2b$", 10, …)` and `_crypt_blowfish_rn(key, setting)`
  pub gensalt : List ℕ → Option (List ℕ)
  pub crypt : List ℕ → List ℕ → Option (List ℕ)
  -- `vTaskDelay` and `esp_restart`
  pub task_delay : ℕ → World → World
  pub restart : World → World
