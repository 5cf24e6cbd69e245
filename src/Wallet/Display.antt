-- ===== src/Wallet/Display.antt =====
-- wallet_ui.c, `flush` and the part of `render` that acts on the device: the frame goes to the
-- display in 33 transfers. What `render` draws into the frame is not modelled: nothing reads it back.
use key_wallet.Base.{ℕ, zero, suc, ◌≡◌, arith, Bool, true, false, not, if◌then◌else◌}
use key_wallet.Wallet.Platform.{Platform}
use key_wallet.Wallet.Device.{Device}

module _ ⦃p : Platform⦄ where
  open p use {World, display_transmit}

  -- The transfers stop at the first that fails.
  transmit_packets : ℕ → World → Bool × World
  transmit_packets zero w = (true, w)
  transmit_packets (suc n) w =
      let (sent, w') = display_transmit w in
      let rest = transmit_packets n w' in if not sent then (false, w') else rest

  unfoldable pub flush : Device World → Bool × Device World
  unfolding transmit_packets
  flush s =
      if not s.oled
      then (false, s)
      else (let (sent, w) = transmit_packets 33 s.world in (sent, record s { world = w }))

  -- `render(…)` where its result is dropped
  unfoldable pub render : Device World → Device World
  render s = (flush s).1

  -- Drawing changes nothing but the world.
  pub render_keeps :
      (s : Device World)
      → ((render s).pin ≡ s.pin)
        × ((render s).lock ≡ s.lock)
        × ((render s).menu ≡ s.menu)
        × ((render s).screen ≡ s.screen)
        × ((render s).local_auth_result ≡ s.local_auth_result)
        × ((render s).rtc ≡ s.rtc)
  unfolding render flush
  render_keeps s = ground arith
