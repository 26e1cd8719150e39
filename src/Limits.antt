-- ===== src/Limits.antt =====
-- middleware/rate-limit.ts, middleware/rbac.ts
pub mod RateLimit
pub mod Roles
pub mod Windows
