-- ===== src/Serving.antt =====
-- internal/serving: what stands between a client's request and the planner.
pub mod Limits
pub mod Store
pub mod Authorization
pub mod Query
pub mod Views
pub mod Limiter
