-- ===== src/Wallet/Lock.antt =====
-- wallet_ui.c, `pin_lock_store`, `pin_lock_check` and `pin_lock_record_result`: the lock that wrong
-- PINs engage. The record is kept in NVS, and the time is the clock's.
pub mod Checks
pub mod Rate
use key_wallet.Base.{ℕ, ◌+◌, ◌-◌, ◌/◌, ◌%◌, ◌^◌, Option, none, some, Bool, true, false, not, ◌||◌}
use key_wallet.Base.{◌==◌, ltb, leb, if◌then◌else◌}
use key_wallet.Wallet.Platform.{Platform, LockRecord}
use key_wallet.Wallet.Device.{Device, LockState, Gate, ready, wait, rtc_error, flash_error}
use key_wallet.Wallet.Clock.{rtc_seconds}

-- The delay in seconds after a wrong PIN, by the count of failures that it makes.
unfoldable pub lock_delay : ℕ → ℕ
lock_delay failures =
    if failures == 5
    then 30
    else if failures == 6
    then 120
    else if failures == 7
    then 600
    else if leb 8 failures
    then 3600
    else 0

-- The record that `pin_lock_record_result` stores.
unfoldable pub next_record : Bool → ℕ → LockRecord → LockRecord
next_record true now r = record { version = 1; failures = 0; locked_until = 0; last_seen = now }
next_record false now r =
    let failures = (if ltb r.failures (2 ^ 32 - 1) then r.failures + 1 else r.failures) in
    let delay = lock_delay failures in
    record {
      version = 1;
      failures = failures;
      locked_until = if delay == 0 then 0 else (now + delay) % 2 ^ 64;
      last_seen = now;
    }

module _ ⦃p : Platform⦄ where
  open p use {World, nvs_set_lock, nvs_commit}

  storage_failed : Device World → World → Bool × Device World
  storage_failed s w =
      (false, record s { world = w; lock = record s.lock { pin_lock_storage_ok = false } })

  unfoldable pub pin_lock_store : LockRecord → Device World → Bool × Device World
  unfolding storage_failed
  pin_lock_store r s =
      if not s.pin_lock_storage_ok || not s.pin_store_open
      then storage_failed s s.world
      else (let (set, w) = nvs_set_lock r s.world in
          if not set
          then storage_failed s w
          else (let (committed, w') = nvs_commit w in
              if not committed
              then storage_failed s w'
              else (true, record s { world = w'; lock = record s.lock { pin_lock = r } })))

  -- What `pin_lock_check` makes of the time that the clock gave.
  gate_at : Option ℕ → Device World → Gate × Option ℕ × Device World
  gate_at none s = (rtc_error, none, s)
  gate_at (some now) s =
      if ltb now s.pin_lock.last_seen
      then (rtc_error, none, s)
      else if ltb now s.pin_lock.locked_until
      then (let remaining = s.pin_lock.locked_until - now in
          let message : ℕ × ℕ = (remaining / 60 % 2 ^ 32, remaining % 60) in
          (wait, some now, record s { lock = record s.lock { pin_lock_message = message } }))
      else (ready, some now, s)

  -- The gate, the time that is written to `now_out`, and the state.
  unfoldable pub pin_lock_check : Device World → Gate × Option ℕ × Device World
  unfolding gate_at
  pin_lock_check s =
      if not s.pin_lock_storage_ok || not s.pin_store_open
      then (flash_error, none, s)
      else (let (now, w) = rtc_seconds s in gate_at now (record s { world = w }))

  unfoldable pub pin_lock_record_result : Bool → ℕ → Device World → Bool × Device World
  pin_lock_record_result correct now s = pin_lock_store (next_record correct now s.pin_lock) s
