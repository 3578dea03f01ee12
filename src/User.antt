-- ===== src/User.antt =====
-- The user service: cdmp-mini/internal/apiserver/service/v1/user.
pub mod Mode
pub mod Decide
pub mod Examples
