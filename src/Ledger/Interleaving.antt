-- ===== src/Ledger/Interleaving.antt =====
-- Several callers over one store: what every schedule of single store calls keeps.
pub mod Writes
pub mod Schedules
pub mod Calls
