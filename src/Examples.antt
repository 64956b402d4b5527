-- ===== src/Examples.antt =====
-- The theorems at concrete inputs, and tests of the definitions. The floats here are decimal
-- fixed-point numbers.
mod Fixed
mod Toy
mod Level
mod Ledger
mod Liquidation
mod Snapshot
mod Outbox
mod Freshness
mod Transport
mod Research
mod Drift
