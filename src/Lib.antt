-- ===== src/Lib.antt =====
-- Enigma Key Wallet: the parts of the ESP32-S3 hardware authenticator that decide who may use it and
-- what it stores. Paths are from the root of the repository; SDK is FidoAuth/pico-keys-sdk/src.
--
-- Base: the shared notation, lists as buffers, chains of options, and the laws of `&`, `|` and `^`.
-- Bytes: the big-endian fields and the status codes of SDK/picokeys.h.
-- Policy: SDK/fs/object_policy.c, the access policies of stored objects. Rules has a policy as data.
-- Wallet: SDK/wallet_ui.c, the display, buttons and PIN of the device. Its static variables are the
--   fields of `Device`, and each function takes a device to the next one. What it calls and the
--   repository does not implement, or only vendors (FreeRTOS, GPIO, I2C, NVS, the random generator,
--   bcrypt), is the interface `Platform`: a call that acts on the outside takes the world to the next
--   one, and ticks and pins are read off the world. What is drawn is not modelled, the transfers to
--   the display are. Clock, Lock, Pin, Keypad, Task, Idle and Poll follow the order of the
--   file, and Boot is wallet_ui_init, less the configuration of the button pins.
-- Tlv: SDK/tlv.c, the tag-length-value records. A pointer is the list of the bytes from it on.
-- Apdu: SDK/apdu.c. Apdu itself parses a command, Chain puts chained commands together and
--   dispatches them to the interface `Applications`, Response delivers a long response in frames.
--   Forms, Pieces, Splice, Parts and Reassembly are about them.
-- Objects: SDK/fs/object_store.c over the interface `Files`, which is SDK/fs/file.c as its clients see
--   it. Objects itself parses, puts and deletes objects, Handles is the table of handles; Record, Put
--   and Stale are about them. `allocate_from` takes as fuel two more than the entries of the table
--   (so does `txn_allocate_from` of Txn), which Draw is about.
-- Txn: SDK/fs/object_store_txn.c, objects that survive a cut-off, over the same interface and an
--   `Authenticator`. Txn itself has the layout and the headers, Recover checks the two slots and
--   chooses, Write puts and deletes, Handles is the table of handles. Frame says what a check depends
--   on, Disk what is asked of the file table on plain identifiers (`IsDisk`), Mac what is asked of the authenticator
--   (`IsMac`); Crash, Replace, Progress, Ending, Headers, Valid, Parts, Atomic,
--   First, Refines, Smooth, Open and Draw are about them. `absorb`
--   takes as fuel the size of the payload. The call of the authenticator's abort is not modelled.
-- Container: SDK/fs/object_container.c. Container itself allocates record identifiers over Txn, and
--   Fresh is about it; Records has descriptors, the headers of records and sealing over an abstract
--   `Protector`, and Headers and Sealed are about them; Extensions validates the extensions of a
--   manifest, with the length of its bytes as fuel. Manifests are not built or parsed.
-- Dynamic: the table of dynamic files of SDK/fs/file.c, for identifiers that no static file has. Path
--   and Probes are about the probes of the two loops, Table, Count, Files, View, Requests, Catalog and
--   Runs about the table as a map. `search_from` and `find_slot_from` take the probes that are left.
-- Flash: SDK/fs/flash.c and flash_clear_file of SDK/fs/file.c, the records in the flash, over the
--   interface `FlashMemory`, which is SDK/fs/low_flash.c as bytes at addresses (`IsMemory` is what is
--   asked of it). Flash itself allocates, Memory has the words, Write writes a whole file and clears
--   it; Reads, Links, Walk, Publish, NewLinks, Written, Stored, NewFile, Gaps, Search, Wipe, Unlinked and
--   Cleared are about them. The pool of a file is an argument. `allocate_at` takes as fuel one more than the end of the pool,
--   `clear_payload` one more than the bytes it clears.
-- Button: SDK/button.c on the ESP32, the wait for the user's presence: its start and its poll.
--   Presence is about what a poll reports.
-- Tests: runs on a bench, and each theorem at an input.
--
-- A machine word is a number with its wrap-around written out. Loops are recursions on the rounds
-- that are left; `find_from` of Tlv takes as fuel one more than the length of the buffer, which
-- a theorem shows to be enough, as another does for `allocate_at`.
-- Not modelled: the rest of the SDK and of FidoAuth, and the prototype in PinAuth.
pub mod Base
pub mod Bytes
pub mod Policy
pub mod Apdu
pub mod Button
pub mod Objects
pub mod Tlv
pub mod Txn
pub mod Container
pub mod Dynamic
pub mod Flash
pub mod Wallet
mod Tests
