-- ===== src/Tests.antt =====
-- Runs of the model and the theorems at concrete inputs.
mod FlashRuns
mod DynamicRuns
mod Bench
mod PolicyRuns
mod LockRuns
mod PinRuns
mod TlvRuns
mod ApduRuns
mod ObjectRuns
mod TxnBench
mod TxnRuns
mod IdRuns
mod SealRuns
mod ButtonRuns
