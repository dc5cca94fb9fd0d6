-- ===== src/Tests.antt =====
-- Runs of the theorems at concrete inputs.
mod Samples
mod Store
mod Chat
mod Edge
mod Accounts
mod Server
mod Wiring
