-- ===== src/Tests.antt =====
-- Runs of the theorems and the definitions on concrete inputs.
mod Ledger
mod Machine
mod Flow
mod Walk
mod Plan
mod Agent
mod Events
