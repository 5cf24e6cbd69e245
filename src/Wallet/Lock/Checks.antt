-- ===== src/Wallet/Lock/Checks.antt =====
-- The gate by all its cases, the record that a result leaves, and the two together: how long wrong
-- PINs shut the device.
use key_wallet.Base.{ℕ, ◌+◌, ◌-◌, ◌^◌, ◌≤◌, ◌<◌, ◌≡◌, Option, none, some, arith}
use key_wallet.Base.{Bool, true, false, ltb, if◌then◌else◌, ◌&&◌}
use key_wallet.Wallet.Platform.{Platform, LockRecord}
use key_wallet.Wallet.Device.{Device, Gate, ready, wait, rtc_error, flash_error}
use key_wallet.Wallet.Clock.{rtc_seconds}
use key_wallet.Wallet.Lock.{
  lock_delay, next_record, storage_failed, pin_lock_store, pin_lock_check, pin_lock_record_result,
}

-- The gate that a record and a time call for.
abbrev pub gate_of : LockRecord → Option ℕ → Gate
gate_of r none = rtc_error
gate_of r (some now) =
    if ltb now r.last_seen then rtc_error else if ltb now r.locked_until then wait else ready

-- The time that is handed out: the clock's, unless it went back.
abbrev pub time_of : LockRecord → Option ℕ → Option ℕ
time_of r none = none
time_of r (some now) = if ltb now r.last_seen then none else some now

pub lock_delay-le : (n : ℕ) → lock_delay n ≤ 3600
unfolding lock_delay
lock_delay-le n = ground arith

module _ ⦃p : Platform⦄ where
  open p use {World, nvs_set_lock, nvs_commit}

  -- The gate is a flash error exactly if the lock cannot be stored, and otherwise what the record and
  -- the clock call for. The time that is handed out is the clock's, none if the clock failed or went
  -- back. The record, the storage flag, the PIN and the authorization stay.
  pub pin_lock_check_lem :
      (s : Device World)
      → ((pin_lock_check s).0 ≡ (
          if s.pin_lock_storage_ok && s.pin_store_open
          then gate_of s.pin_lock (rtc_seconds s).0
          else flash_error))
        × ((pin_lock_check s).1 ≡ (
            if s.pin_lock_storage_ok && s.pin_store_open
            then time_of s.pin_lock (rtc_seconds s).0
            else none))
        × ((pin_lock_check s).2.pin_lock ≡ s.pin_lock)
        × ((pin_lock_check s).2.pin_lock_storage_ok ≡ s.pin_lock_storage_ok)
        × ((pin_lock_check s).2.pin ≡ s.pin)
        × ((pin_lock_check s).2.local_auth_result ≡ s.local_auth_result)
  unfolding pin_lock_check
  pin_lock_check_lem s = ground arith

  -- A result that was recorded is in the record; one that could not be recorded shuts the gate by
  -- `pin_lock_storage_ok`. The PIN and the authorization stay.
  pub pin_lock_record_result_lem :
      (correct : Bool) (now : ℕ) (s : Device World)
      → let (recorded, s') = pin_lock_record_result correct now s in
        (s'.pin_lock ≡ (if recorded then next_record correct now s.pin_lock else s.pin_lock))
        × (s'.pin_lock_storage_ok ≡ recorded)
        × (recorded ≡ true → (s.pin_lock_storage_ok && s.pin_store_open) ≡ true)
        × (s'.pin ≡ s.pin)
        × (s'.local_auth_result ≡ s.local_auth_result)
  unfolding pin_lock_record_result pin_lock_store storage_failed
  pin_lock_record_result_lem correct now s = ground arith

  -- After a wrong PIN was recorded at `now`, a check at a later clock time answers WAIT exactly while
  -- the delay of the new count of failures runs, and then READY.
  pub wrong_pin_delays :
      (s : Device World) (now later : ℕ)
      → (pin_lock_record_result false now s).0 ≡ true
      → (rtc_seconds (pin_lock_record_result false now s).1).0 ≡ some later
      → now ≤ later
      → now < 2 ^ 63
      → s.pin_lock.failures < 2 ^ 32 - 1
      → (pin_lock_check (pin_lock_record_result false now s).1).0
        ≡ (if ltb later (now + lock_delay (s.pin_lock.failures + 1)) then wait else ready)
  unfolding next_record
  wrong_pin_delays s now later recorded clock order small few = ground (
    arith,
    pin_lock_check_lem (pin_lock_record_result false now s).1,
    pin_lock_record_result_lem false now s,
    lock_delay-le (s.pin_lock.failures + 1),
  )
