-- ===== src/Ledger.antt =====
-- The package ledger: durable task admission, leases with fence tokens, dependency blocking.
pub mod Task
pub mod Store
pub mod Program
pub mod Blocking
pub mod Leases
pub mod Completion
pub mod Admission
pub mod Snapshots
pub mod TaskRun
pub mod Validity
pub mod Guarantee
pub mod Interleaving
pub mod Alone
