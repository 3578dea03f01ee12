-- ===== src/Operation.antt =====
-- The asynchronous operation pipeline: cdmp-mini/internal/common/service/operation.
pub mod Types
pub mod Acts
pub mod Store
pub mod DbStore
pub mod Queue
pub mod RedisQueue
pub mod Pipeline
pub mod Worker
pub mod Examples
