-- ===== src/Wallet/Lock/Rate.antt =====
-- How fast PINs can be guessed: the times at which wrong PINs can be tried, one after the other.
use key_wallet.Base.{ℕ, zero, suc, ◌+◌, ◌-◌, ◌*◌, ◌^◌, ◌≤◌, ◌<◌, ◌≡◌, some, arith}
use native.Mathlib.Decide.{dec_lt}
use key_wallet.Base.{ap, false, if◌then◌else◌, ◌==◌}
use key_wallet.Wallet.Platform.{LockRecord}
use key_wallet.Wallet.Device.{ready}
use key_wallet.Wallet.Lock.{lock_delay, next_record}
use key_wallet.Wallet.Lock.Checks.{gate_of, lock_delay-le}

-- `n` wrong PINs in a row, each tried at a time at which the gate was ready.
pub data Guesses (r : LockRecord) : ℕ → LockRecord → Type 0 where
  start : Guesses r 0 r
  guess :
      {n : ℕ} {q : LockRecord} (now : ℕ)
      → Guesses r n q
      → gate_of q (some now) ≡ ready
      → now < 2 ^ 32
      → Guesses r (suc n) (next_record false now q)

-- The seconds that `n` wrong PINs cost when there were `failures` before.
abbrev pub total_delay : ℕ → ℕ → ℕ
total_delay failures zero = 0
total_delay failures (suc n) = total_delay failures n + lock_delay (failures + suc n)

-- The record's lock is the one that its count of failures calls for.
pub record IsConsistent (r : LockRecord) : Type 0 where
  pub locked :
      r.locked_until
      ≡ (if lock_delay r.failures == 0 then 0 else r.last_seen + lock_delay r.failures)
  pub seen : r.last_seen < 2 ^ 32

record Progress (r : LockRecord) (n : ℕ) (q : LockRecord) : Type 0 where
  consistent : IsConsistent q
  counted : q.failures ≡ r.failures + n
  late :
      r.last_seen + lock_delay r.failures + total_delay r.failures n
      ≤ q.last_seen + lock_delay q.failures

-- The gate is ready only once the delay is over.
ready_after :
    (r : LockRecord) (now : ℕ)
    → IsConsistent r
    → gate_of r (some now) ≡ ready
    → r.last_seen + lock_delay r.failures ≤ now
ready_after r now c passed = ground (arith, c.locked)

Guesses-Progress :
    {r q : LockRecord} {n : ℕ}
    → IsConsistent r
    → r.failures + n < 2 ^ 32
    → Guesses r n q
    → Progress r n q
unfolding next_record
Guesses-Progress c few start = record { consistent = c; counted = omega arith; late = omega arith }
Guesses-Progress {r} {n = suc n} c few (guess {q = q} now g passed small) =
    let before = Guesses-Progress c (omega arith) g in
    record {
      consistent = record {
        locked = ground (arith, lock_delay-le (q.failures + 1), before.counted);
        seen = small;
      };
      counted = ground (arith, before.counted);
      late =
          ground (arith, before.counted, before.late, ready_after q now before.consistent passed);
    }

-- 30, 120 and 600 seconds, then an hour for each.
total_delay_lem : (n : ℕ) → 8 ≤ n → total_delay 0 n ≡ 750 + 3600 * (n - 7)
unfolding lock_delay
total_delay_lem zero h = absurd (omega arith)
total_delay_lem (suc n) h = elim (dec_lt 7 n) [
  | yes more ↦ ground (arith, total_delay_lem n more)
  | no done ↦ let e : n ≡ 7 = omega arith in rw e
]

-- From a record with no failures, `n` wrong PINs in a row, `n` at least 8, shut the device until
-- 750 seconds and an hour for each of them beyond the seventh have passed.
pub guess_rate :
    (r q : LockRecord) (n now : ℕ)
    → IsConsistent r
    → r.failures ≡ 0
    → 8 ≤ n
    → n < 2 ^ 32
    → Guesses r n q
    → gate_of q (some now) ≡ ready
    → r.last_seen + 750 + 3600 * (n - 7) ≤ now
guess_rate r q n now c none many few g passed =
    let p = Guesses-Progress c (omega arith) g in
    ground (
      arith,
      p.late,
      ready_after q now p.consistent passed,
      total_delay_lem n many,
      ap (λ (f : ℕ). total_delay f n) none,
    )
