-- ===== src/Button/Presence.antt =====
-- FidoAuth/pico-keys-sdk/src/button.c, button_wait_poll: when the user's presence is reported.
use key_wallet.Base.{
  ◌⊎◌, inl, inr, sym, ap, ◌∙◌, ℕ, ◌≡◌, ◌≢◌, ◌<◌, Bool, true, false, Option, none, some, arith, refl,
}
use Prim.Native.String.{String}
use key_wallet.Wallet.Device.{Authorization, pending, granted, cancelled}
use key_wallet.Button.{
  Event, ev_pressed, ButtonState, Inputs, since, take_authorization, still_pressed, approve_changes,
  approve_settles, cancel_changes, cancel_settles, sampled, noted, outcome, finish, conclude,
  no_authorization, bool_differs, button_wait_poll,
}

abbrev pub Reports : Event → Option (Event × String) → Type 0
Reports e none = ⊥
Reports e (some r) = r.0 ≡ e

true≢false : true ≢ false
true≢false h = cc

approve_keeps :
    (pressed : Bool) (now : ℕ) (b : ButtonState)
    → ((approve_settles now (approve_changes pressed now b)).cancel_raw ≡ b.cancel_raw)
      × ((approve_settles now (approve_changes pressed now b)).cancel_button ≡ b.cancel_button)
unfolding approve_settles approve_changes
approve_keeps pressed now b = ground arith

cancel_follows :
    (cancel : Bool) (now : ℕ) (b : ButtonState)
    → (cancel_settles now (cancel_changes cancel now b)).cancel_raw ≡ cancel
unfolding cancel_settles cancel_changes bool_differs
cancel_follows true now b = ground arith
cancel_follows false now b = ground arith

cancel_grows :
    (cancel : Bool) (now : ℕ) (b : ButtonState)
    → (cancel_settles now (cancel_changes cancel now b)).cancel_button ≡ false
    → b.cancel_button ≡ false
unfolding cancel_settles cancel_changes
cancel_grows cancel now b h = ground arith

conclude-pressed :
    (now : ℕ) (b : ButtonState)
    → Reports ev_pressed (conclude (outcome now b) b).1
    → (b.cancel_button ≡ false)
      × (b.cancel_raw ≡ false)
      × (since now b.async_button_started < b.async_button_timeout)
unfolding conclude outcome finish
conclude-pressed now b h = ground arith

approve_time :
    (pressed : Bool) (now : ℕ) (b : ButtonState)
    → ((approve_settles now (approve_changes pressed now b)).async_button_started
        ≡ b.async_button_started)
      × ((approve_settles now (approve_changes pressed now b)).async_button_timeout
          ≡ b.async_button_timeout)
unfolding approve_settles approve_changes
approve_time pressed now b = ground arith

cancel_time :
    (cancel : Bool) (now : ℕ) (b : ButtonState)
    → ((cancel_settles now (cancel_changes cancel now b)).async_button_started
        ≡ b.async_button_started)
      × ((cancel_settles now (cancel_changes cancel now b)).async_button_timeout
          ≡ b.async_button_timeout)
unfolding cancel_settles cancel_changes
cancel_time cancel now b = ground arith

earlier : (now : ℕ) {s s' t t' : ℕ} → s ≡ s' → t ≡ t' → since now s < t → since now s' < t'
earlier now p q h = rw (sym p, sym q) h

-- A sample of a granted authorization.
granted_sample :
    (i : Inputs) (b : ButtonState)
    → i.local_authorization ≡ granted
    → Reports ev_pressed (conclude (outcome i.now (noted (sampled i b))) (noted (sampled i b))).1
    → (b.cancel_button ≡ false)
      × (i.gpio6 ≡ false)
      × (since i.now b.async_button_started < b.async_button_timeout)
unfolding sampled noted take_authorization
granted_sample i b allowed h =
    let b1 : ButtonState = take_authorization i.local_authorization b in
    let pressed = still_pressed i.local_authorization i.board_button in
    let b2 : ButtonState = approve_settles i.now (approve_changes pressed i.now b1) in
    let c = conclude-pressed i.now (noted (sampled i b)) h in
    let grown = cancel_grows i.gpio6 i.now b2 c.0 in
    let raw = cancel_follows i.gpio6 i.now b2 in
    let kept = approve_keeps pressed i.now b1 in
    let t1 = approve_time pressed i.now b1 in
    let t2 = cancel_time i.gpio6 i.now b2 in
    let same : take_authorization i.local_authorization b
        ≡ record b { async_button_pressed = true } =
      rw allowed refl in
    (
      sym (ap (λ (x : ButtonState). x.cancel_button) same) ∙ sym kept.1 ∙ grown,
      sym raw ∙ c.1,
      earlier i.now (t2.0 ∙ t1.0 ∙ ap (λ (x : ButtonState). x.async_button_started) same)
          (t2.1 ∙ t1.1 ∙ ap (λ (x : ButtonState). x.async_button_timeout) same) c.2,
    )

cancelled_sample :
    (i : Inputs) (b : ButtonState)
    → i.local_authorization ≡ cancelled
    → Reports ev_pressed (conclude (outcome i.now (noted (sampled i b))) (noted (sampled i b))).1
    → ⊥
unfolding sampled noted take_authorization
cancelled_sample i b refused h =
    let b1 : ButtonState = take_authorization i.local_authorization b in
    let pressed = still_pressed i.local_authorization i.board_button in
    let b2 : ButtonState = approve_settles i.now (approve_changes pressed i.now b1) in
    let c = conclude-pressed i.now (noted (sampled i b)) h in
    let grown = cancel_grows i.gpio6 i.now b2 c.0 in
    let kept = approve_keeps pressed i.now b1 in
    let same : take_authorization i.local_authorization b ≡ record b { cancel_button = true } =
      rw refused refl in
    true≢false (sym (ap (λ (x : ButtonState). x.cancel_button) same) ∙ sym kept.1 ∙ grown)

poll_concludes :
    (i : Inputs) (b : ButtonState)
    → Reports ev_pressed (button_wait_poll i b).1
    → (b.async_button_wait ≡ true)
      × (no_authorization i.local_authorization ≡ false)
      × Reports ev_pressed (conclude (outcome i.now (noted (sampled i b))) (noted (sampled i b))).1
unfolding button_wait_poll
poll_concludes i b h = ground arith

decided : (a : Authorization) → no_authorization a ≡ false → (a ≡ granted) ⊎ (a ≡ cancelled)
unfolding no_authorization
decided pending h = absurd (true≢false h)
decided granted h = inl refl
decided cancelled h = inr refl

-- A poll reports a press only if a wait is running, the local user interface hands out a granted
-- authorization, no cancellation was pending, GPIO 6 is low, and the time of the wait is not over.
pub button_wait_poll-pressed :
    (i : Inputs) (b : ButtonState)
    → Reports ev_pressed (button_wait_poll i b).1
    → (b.async_button_wait ≡ true)
      × (i.local_authorization ≡ granted)
      × (b.cancel_button ≡ false)
      × (i.gpio6 ≡ false)
      × (since i.now b.async_button_started < b.async_button_timeout)
button_wait_poll-pressed i b h =
    let p = poll_concludes i b h in
    elim (decided i.local_authorization p.1) [
      | inl allowed ↦ (let g = granted_sample i b allowed p.2 in (p.0, allowed, g.0, g.1, g.2))
      | inr refused ↦ absurd (cancelled_sample i b refused p.2)
    ]
