-- ===== src/Wallet/Pin/Grant.antt =====
-- What `pin_submit` does with a PIN that is to be verified, and when it grants the operation that
-- waits.
use key_wallet.Base.{ℕ, ◌≡◌, ◌≢◌, refl, sym, ◌∙◌, inl, inr, List, Option, none, some, arith}
use key_wallet.Base.{
  Bool, true, false, take, list_eq_iff, not, if◌then◌else◌, ◌==◌, ==_iff, Bool-cases,
}
use mathlib.Core.Path.{subst}
use key_wallet.Wallet.Platform.{Platform}
use key_wallet.Wallet.Device.{
  Device, PinState, Gate, Mode, ready, create, retype, change_current, change_new, change_retype,
  reset_challenge, reset_verify, granted,
}
use key_wallet.Wallet.Display.{render_keeps}
use key_wallet.Wallet.Lock.{pin_lock_check, pin_lock_record_result}
use key_wallet.Wallet.Lock.Checks.{pin_lock_check_lem, pin_lock_record_result_lem}
use key_wallet.Wallet.Pin.{
  zeros, pin_hash_matches, pin_clear, pin_store_new, reset_schedule_wipe, submit_challenge, created,
  submit_retype, changed, submit_change_retype, reset_confirmed, verified, record_and_finish,
  check_candidate, pass_gate, submit_verify, submit_full, submit_in, pin_submit,
}

-- The modes that do not ask for the PIN for the sake of the settings.
abbrev pub GrantMode : Mode → Type 0
GrantMode mode = (mode ≢ change_current) × (mode ≢ reset_verify)

module _ ⦃p : Platform⦄ where
  open p use {World, crypt}

  -- The entry is the PIN: with the stored hash as its setting it hashes to the stored hash.
  pub record EntersPin (s : PinState) : Type 0 where
    pub candidate : List ℕ
    pub hashed : crypt s.pin_entry s.pin_hash ≡ some candidate
    pub same : pin_hash_matches candidate s.pin_hash ≡ true

  schedule_keeps :
      (s : Device World) → ((reset_schedule_wipe s).1.local_auth_result ≡ s.local_auth_result)
  unfolding reset_schedule_wipe
  schedule_keeps s = ground arith

  store_keeps :
      (pin : List ℕ) (s : Device World)
      → ((pin_store_new pin s).1.local_auth_result ≡ s.local_auth_result)
        × ((pin_store_new pin s).1.pin_setup_at_boot ≡ s.pin_setup_at_boot)
        × ((pin_store_new pin s).1.pin_mode ≡ s.pin_mode)
        × ((pin_store_new pin s).1.lock ≡ s.lock)
  unfolding pin_store_new
  store_keeps pin s = ground arith

  confirmed_keeps : (s : Device World) → (reset_confirmed s).local_auth_result ≡ s.local_auth_result
  unfolding reset_confirmed
  confirmed_keeps s = grind (arith, schedule_keeps, render_keeps)

  verified-granted :
      (mode : Mode) (correct : Bool) (s : Device World)
      → s.local_auth_result ≢ granted
      → (verified mode correct s).local_auth_result ≡ granted
      → (correct ≡ true) × GrantMode mode
  unfolding verified
  verified-granted mode false s old h = absurd (old h)
  verified-granted change_current true s old h = absurd (old h)
  verified-granted reset_verify true s old h = absurd (old (sym (confirmed_keeps s) ∙ h))
  verified-granted _ true s old h = (refl, (λ e. cc, λ e. cc))

  record_and_finish-granted :
      (correct : Bool) (now : ℕ) (s : Device World)
      → s.local_auth_result ≢ granted
      → (record_and_finish correct now s).local_auth_result ≡ granted
      → (correct ≡ true) × GrantMode s.pin_mode
  unfolding record_and_finish
  record_and_finish-granted correct now s old h =
      let (recorded, s') = pin_lock_record_result correct now s in
      let (gate, _, s'') = pin_lock_check s' in
      let checked = record s'' { lock = record s''.lock { pin_gate = gate } } in
      ground (
        arith,
        pin_lock_record_result_lem correct now s,
        pin_lock_check_lem s',
        verified-granted s''.pin_mode correct checked,
      )

  check_candidate-granted :
      (candidate : Option (List ℕ)) (now : ℕ) (s : Device World)
      → crypt s.pin_entry s.pin_hash ≡ candidate
      → s.local_auth_result ≢ granted
      → (check_candidate candidate now s).local_auth_result ≡ granted
      → EntersPin s.pin × GrantMode s.pin_mode
  unfolding check_candidate pin_clear
  check_candidate-granted none now s e old h = absurd (old h)
  check_candidate-granted (some c) now s e old h =
      let (right, modes) = record_and_finish-granted (pin_hash_matches c s.pin_hash) now _ old h in
      (record { candidate = c; hashed = e; same = right }, modes)

  pass_gate-granted :
      (gate : Gate) (now : Option ℕ) (s : Device World)
      → s.local_auth_result ≢ granted
      → (pass_gate gate now s).local_auth_result ≡ granted
      → (gate ≡ ready) × EntersPin s.pin × GrantMode s.pin_mode
  unfolding pass_gate
  pass_gate-granted ready (some now) s old h =
      let (right, modes) =
        check_candidate-granted (crypt s.pin_entry s.pin_hash) now s refl old h in
      (refl, right, modes)
  pass_gate-granted ready none s old h =
      let (right, modes) = check_candidate-granted (crypt s.pin_entry s.pin_hash) 0 s refl old h in
      (refl, right, modes)
  pass_gate-granted _ now s old h = absurd (old h)

  submit_verify-granted :
      (s : Device World)
      → s.local_auth_result ≢ granted
      → (submit_verify s).local_auth_result ≡ granted
      → ((pin_lock_check s).0 ≡ ready) × EntersPin s.pin × GrantMode s.pin_mode
  unfolding submit_verify
  submit_verify-granted s old h =
      let (gate, now, s') = pin_lock_check s in
      let (_, _, _, _, same, auth) = pin_lock_check_lem s in
      let checked = record s' { lock = record s'.lock { pin_gate = gate } } in
      let (open_gate, right, modes) =
        pass_gate-granted gate now checked (λ e. old (sym auth ∙ e)) h in
      (open_gate, subst EntersPin same right, subst (λ q. GrantMode q.pin_mode) same modes)

  created-granted :
      (s : Device World)
      → s.local_auth_result ≢ granted
      → (created s).local_auth_result ≡ granted
      → s.pin_setup_at_boot ≡ false
  unfolding created
  created-granted s old h = elim (Bool-cases s.pin_setup_at_boot) [
    | inl setup ↦ let h' = rw setup at (sym (render_keeps _).4 ∙ h) in absurd (old h')
    | inr other ↦ other
  ]

  submit_retype-granted :
      (s : Device World)
      → s.local_auth_result ≢ granted
      → (submit_retype s).local_auth_result ≡ granted
      → (take 6 s.pin_first ≡ take 6 s.pin_entry)
        × ((pin_store_new s.pin_entry s).0 ≡ true)
        × (s.pin_setup_at_boot ≡ false)
  unfolding submit_retype pin_clear
  submit_retype-granted s old h =
      let s' = (pin_store_new s.pin_entry s).1 in
      ground (
        arith,
        list_eq_iff (take 6 s.pin_first) (take 6 s.pin_entry),
        store_keeps s.pin_entry s,
        created-granted (record s' { pin = record (pin_clear s'.pin) { pin_first = zeros 7 } }),
      )

  changed_keeps : (s : Device World) → (changed s).local_auth_result ≡ s.local_auth_result
  unfolding changed
  changed_keeps s = (render_keeps _).4

  submit_change_retype_keeps :
      (s : Device World) → (submit_change_retype s).local_auth_result ≡ s.local_auth_result
  unfolding submit_change_retype pin_clear
  submit_change_retype_keeps s =
      let s' = (pin_store_new s.pin_entry s).1 in
      ground (
        arith,
        store_keeps s.pin_entry s,
        changed_keeps (record s' { pin = record (pin_clear s'.pin) { pin_first = zeros 7 } }),
      )

  -- What a submission that grants the operation has seen: the right PIN at an open gate, or the first
  -- PIN of the device, typed twice and stored.
  pub data Granting (s : Device World) : Type 0 where
    by_pin : (pin_lock_check s).0 ≡ ready → EntersPin s.pin → GrantMode s.pin_mode → Granting s
    by_creation :
        s.pin_mode ≡ retype
        → take 6 s.pin_first ≡ take 6 s.pin_entry
        → (pin_store_new s.pin_entry s).0 ≡ true
        → s.pin_setup_at_boot ≡ false
        → Granting s

  pub submit_full-granted :
      (mode : Mode) (s : Device World)
      → s.pin_mode ≡ mode
      → s.local_auth_result ≢ granted
      → (submit_full mode s).local_auth_result ≡ granted
      → Granting s
  unfolding submit_full
  submit_full-granted create s e old h = absurd (old h)
  submit_full-granted retype s e old h =
      let (typed, stored, setup) = submit_retype-granted s old h in by_creation e typed stored setup
  submit_full-granted change_new s e old h = absurd (old h)
  submit_full-granted change_retype s e old h =
      absurd (old (sym (submit_change_retype_keeps s) ∙ h))
  submit_full-granted _ s e old h =
      let (passed, right, modes) = submit_verify-granted s old h in by_pin passed right modes

  submit_challenge_keeps :
      (s : Device World) → (submit_challenge s).local_auth_result ≡ s.local_auth_result
  unfolding submit_challenge
  submit_challenge_keeps s = ground arith

  six_digits-granted :
      (mode : Mode) (s : Device World)
      → s.pin_mode ≡ mode
      → s.local_auth_result ≢ granted
      → (if not (s.pin_length == 6) then s else submit_full mode s).local_auth_result ≡ granted
      → (s.pin_length ≡ 6) × Granting s
  six_digits-granted mode s e old h = elim (Bool-cases (s.pin_length == 6)) [
    | inl six ↦ (
      (==_iff _ 6).0 six,
      submit_full-granted mode s e old (
          subst (λ b. (if not b then s else submit_full mode s).local_auth_result ≡ granted) six h),
    )
    | inr other ↦ absurd (
        old (
          subst (λ b. (if not b then s else submit_full mode s).local_auth_result ≡ granted) other
            h))
  ]

  submit_in-granted :
      (mode : Mode) (s : Device World)
      → s.pin_mode ≡ mode
      → s.local_auth_result ≢ granted
      → (submit_in mode s).local_auth_result ≡ granted
      → (s.pin_length ≡ 6) × Granting s
  unfolding submit_in
  submit_in-granted reset_challenge s e old h = absurd (old (sym (submit_challenge_keeps s) ∙ h))
  submit_in-granted mode s e old h = six_digits-granted mode s e old h

  -- A submission grants the waiting operation only with six digits, and only if they are the PIN,
  -- tried while the gate was ready, or the first PIN of the device, typed twice and stored.
  pub pin_submit-granted :
      (s : Device World)
      → s.local_auth_result ≢ granted
      → (pin_submit s).local_auth_result ≡ granted
      → (s.pin_length ≡ 6) × Granting s
  unfolding pin_submit
  pin_submit-granted s old h = submit_in-granted s.pin_mode s refl old h
