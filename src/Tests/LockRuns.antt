-- ===== src/Tests/LockRuns.antt =====
-- The clock and the lock on the bench.
use key_wallet.Base.{ℕ, List, ◌+◌, ◌-◌, ◌*◌, ◌≤◌, ◌≡◌, refl, some, false, arith, ltb, if◌then◌else◌}
use key_wallet.Wallet.Platform.{LockRecord}
use key_wallet.Wallet.Device.{Device, ready, wait}
use key_wallet.Wallet.Clock.{
  rtc_seconds, read_date, read_hour, bcd_read, seconds_of, days_of_years, days_of_months,
  days_this_month, leap_year,
}
use key_wallet.Wallet.Lock.{
  pin_lock_check, pin_lock_record_result, pin_lock_store, next_record, lock_delay,
}
use key_wallet.Wallet.Lock.Checks.{wrong_pin_delays, gate_of}
use key_wallet.Wallet.Lock.Rate.{Guesses, start, guess, guess_rate, IsConsistent}
use key_wallet.Tests.Bench.{bench, at_rest, fresh_lock}

-- 8825 days and 45045 seconds.
leap_day_seconds : (rtc_seconds at_rest).0 ≡ some 762525045
unfolding rtc_seconds read_date read_hour bcd_read seconds_of days_of_years days_of_months
    days_this_month leap_year
leap_day_seconds = refl

abbrev four_failures : LockRecord
four_failures = record { version = 1; failures = 4; locked_until = 0; last_seen = 0 }

abbrev four_wrong : Device (List ℕ)
four_wrong = record at_rest { lock = record at_rest.lock { pin_lock = four_failures } }

-- The fifth wrong PIN, 45 seconds before the clock's time: its 30 seconds are over.
wrong_pin_delays_example :
    (pin_lock_check (pin_lock_record_result false 762525000 four_wrong).1).0
    ≡ (if ltb 762525045 (762525000 + lock_delay (4 + 1)) then wait else ready)
wrong_pin_delays_example =
    wrong_pin_delays four_wrong 762525000 762525045
      (unfold pin_lock_record_result pin_lock_store in refl)
      (unfold pin_lock_record_result pin_lock_store rtc_seconds read_date read_hour bcd_read
          seconds_of days_of_years days_of_months days_this_month leap_year in
        refl)
      (omega arith) (omega arith) (omega arith)

fresh-IsConsistent : IsConsistent fresh_lock
unfolding lock_delay
fresh-IsConsistent = record { locked = refl; seen = omega arith }

eight-Guesses : (q : LockRecord) × Guesses fresh_lock 8 q × (gate_of q (some 5000) ≡ ready)
unfolding next_record lock_delay
eight-Guesses = (
  _,
  guess 1000
      (guess 200
        (guess 40
          (guess 5
            (guess 4
              (guess 3 (guess 2 (guess 1 start refl (omega arith)) refl (omega arith)) refl
                (omega arith))
              refl (omega arith))
            refl (omega arith))
          refl (omega arith))
        refl (omega arith))
      refl (omega arith),
  refl,
)

guess_rate_example : 0 + 750 + 3600 * (8 - 7) ≤ 5000
guess_rate_example =
    guess_rate fresh_lock eight-Guesses.0 8 5000 fresh-IsConsistent refl (omega arith) (omega arith)
      eight-Guesses.1 eight-Guesses.2
