-- ===== src/Operation/RedisQueue.antt =====
-- The queue coordinator over Redis:
-- cdmp-mini/internal/common/service/operation/queue/redisqueue/coordinator.go.
pub mod Commands
pub mod Scripts
pub mod Calls
pub mod Config
pub mod Reclaim
pub mod Coordinator
pub mod Local
pub mod Examples
