-- ===== src/Wallet.antt =====
-- FidoAuth/pico-keys-sdk/src/wallet_ui.c: the local user interface of the device, its PIN and the
-- lock that wrong PINs engage. The static variables are the fields of `Device`.
pub mod Platform
pub mod Device
pub mod Display
pub mod Clock
pub mod Lock
pub mod Pin
pub mod Keypad
pub mod Task
pub mod Idle
pub mod Poll
pub mod Boot
