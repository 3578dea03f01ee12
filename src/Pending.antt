-- ===== src/Pending.antt =====
-- The pending coordinator, which gives out leases on user names and grades the load:
-- cdmp-mini/internal/pkg/usercache.
pub mod Level
pub mod Buckets
pub mod Profile
pub mod Decision
pub mod Hash
pub mod Lease
pub mod Expiry
pub mod State
pub mod Tuning
pub mod Coordinator
pub mod Queries
pub mod Examples
