-- ===== src/Tests/PinRuns.antt =====
-- Submitting PINs on the bench.
use key_wallet.Base.{ℕ, ◌≡◌, ◌↔◌, refl, List, true}
use key_wallet.Wallet.Device.{Device, verify, granted}
use key_wallet.Wallet.Clock.{
  rtc_seconds, read_date, read_hour, bcd_read, seconds_of, days_of_years, days_of_months,
  days_this_month, leap_year,
}
use key_wallet.Wallet.Lock.{pin_lock_check, pin_lock_record_result, pin_lock_store, next_record}
use key_wallet.Wallet.Pin.{
  pin_submit, submit_in, submit_full, submit_verify, check_candidate, record_and_finish, verified,
  pin_hash_matches, difference_from, pin_clear,
}
use key_wallet.Wallet.Pin.Match.{pin_hash_matches_iff, AgreeFrom}
use key_wallet.Wallet.Pin.Grant.{Granting, pin_submit-granted}
use key_wallet.Tests.Bench.{bench, at_rest, bench_hash, pin_123456}

-- The PIN is entered, and Submit will be pressed.
abbrev entered : Device (List ℕ)
entered = record at_rest {
  pin = record at_rest.pin { pin_mode = verify; pin_entry = pin_123456; pin_length = 6 };
}

entered_grants : (pin_submit entered).local_auth_result ≡ granted
unfolding pin_submit submit_in submit_full submit_verify check_candidate record_and_finish verified
    pin_hash_matches difference_from pin_clear pin_lock_check pin_lock_record_result pin_lock_store
    next_record rtc_seconds read_date read_hour bcd_read seconds_of days_of_years days_of_months
    days_this_month leap_year
entered_grants = refl

pin_submit-granted_example : (entered.pin_length ≡ 6) × Granting entered
pin_submit-granted_example = pin_submit-granted entered (λ e. cc) entered_grants

pin_hash_matches_iff_example :
    (pin_hash_matches pin_123456 (bench_hash pin_123456) ≡ true)
    ↔ AgreeFrom pin_123456 (bench_hash pin_123456) 0 60
pin_hash_matches_iff_example = pin_hash_matches_iff pin_123456 (bench_hash pin_123456)
