-- ===== src/Wallet/Clock.antt =====
-- wallet_ui.c, `bcd_read` to `rtc_seconds`: the time of the DS3231 clock, in seconds since 2000.
use key_wallet.Base.{ℕ, zero, suc, ◌+◌, ◌-◌, ◌*◌, ◌/◌, ◌%◌, List, [], ◌∷◌, Option, none, some, Bool}
use key_wallet.Base.{not, ◌&&◌, ◌||◌, ◌==◌, ltb, leb, if◌then◌else◌, bit_and, get_or}
use key_wallet.Base.{◌>>=◌, ◌>>◌, guard}
use mathlib.Core.Option
use key_wallet.Wallet.Platform.{Platform}
use key_wallet.Wallet.Device.{Device}

-- `none` is the false of the source.
unfoldable pub bcd_read : ℕ → ℕ → Option ℕ
bcd_read encoded maximum =
    let high = encoded / 16 in
    let low = bit_and encoded 15 in
    if ltb 9 high || ltb 9 low || ltb maximum (high * 10 + low)
    then none
    else some (high * 10 + low)

unfoldable pub leap_year : ℕ → Bool
leap_year year = year % 4 == 0 && (not (year % 100 == 0) || year % 400 == 0)

abbrev pub days_in_month : List ℕ
days_in_month = 31 ∷ 28 ∷ 31 ∷ 30 ∷ 31 ∷ 30 ∷ 31 ∷ 31 ∷ 30 ∷ 31 ∷ 30 ∷ 31 ∷ []

-- `days_in_month[month - 1] + (month == 2 && leap_year(year))`
unfoldable pub days_this_month : ℕ → ℕ → ℕ
days_this_month year month =
    get_or days_in_month (month - 1) 0 + (if month == 2 && leap_year year then 1 else 0)

-- The calendar fields, the year in full.
pub record DateTime : Type 0 where
  pub year : ℕ
  pub month : ℕ
  pub day : ℕ
  pub hour : ℕ
  pub minute : ℕ
  pub second : ℕ

-- The hour register, in the 12-hour or the 24-hour form.
unfoldable pub read_hour : ℕ → Option ℕ
read_hour raw =
    if not (bit_and raw 0x40 == 0)
    then (do
      hour ← bcd_read (bit_and raw 0x1f) 12
      guard (not (hour == 0))
      some (hour % 12 + (if bit_and raw 0x20 == 0 then 0 else 12)))
    else bcd_read (bit_and raw 0x3f) 23

-- The tests of `rtc_seconds` on the seven registers.
unfoldable pub read_date : List ℕ → Option DateTime
read_date raw = do
  second ← bcd_read (bit_and (get_or raw 0 0) 0x7f) 59
  minute ← bcd_read (bit_and (get_or raw 1 0) 0x7f) 59
  day ← bcd_read (bit_and (get_or raw 4 0) 0x3f) 31
  month ← bcd_read (bit_and (get_or raw 5 0) 0x1f) 12
  short_year ← bcd_read (get_or raw 6 0) 99
  guard (bit_and (get_or raw 5 0) 0x80 == 0)
  hour ← read_hour (get_or raw 2 0)
  let year = short_year + 2000
  guard (not (ltb year 2020 || month == 0 || day == 0))
  guard (leb day (days_this_month year month))
  some (record {
    year = year;
    month = month;
    day = day;
    hour = hour;
    minute = minute;
    second = second;
  })

-- The two loops that count days: `n` years from 2000 on, and `n` months from January on.
unfoldable pub days_of_years : ℕ → ℕ
days_of_years zero = 0
days_of_years (suc n) = days_of_years n + (if leap_year (2000 + n) then 366 else 365)

unfoldable pub days_of_months : ℕ → ℕ → ℕ
days_of_months year zero = 0
days_of_months year (suc n) = days_of_months year n + days_this_month year (suc n)

unfoldable pub seconds_of : DateTime → ℕ
seconds_of d =
    let days = days_of_years (d.year - 2000) + days_of_months d.year (d.month - 1) + (d.day - 1) in
    ((days * 24 + d.hour) * 60 + d.minute) * 60 + d.second

module _ ⦃p : Platform⦄ where
  open p use {World, rtc_receive}

  -- The registers, once the status register says that the oscillator has not stopped.
  read_registers : Bool → World → Option (List ℕ) × World
  read_registers stopped w = if stopped then (none, w) else rtc_receive 0 7 w

  read_clock : Option (List ℕ) → World → Option (List ℕ) × World
  read_clock none w = (none, w)
  read_clock (some status_byte) w =
      read_registers (not (bit_and (get_or status_byte 0 0) 0x80 == 0)) w

  unfoldable pub rtc_seconds : Device World → Option ℕ × World
  unfolding read_registers read_clock
  rtc_seconds s =
      if not s.rtc
      then (none, s.world)
      else (let (status_byte, w) = rtc_receive 0x0f 1 s.world in
          let (raw, w') = read_clock status_byte w in
          (Option.map seconds_of (raw >>= read_date), w'))
