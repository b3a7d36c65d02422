-- ===== src/Web.antt =====
-- services/gateway/internal/web: the HTTP handlers, the stream of job events and
-- the router.
pub mod Status
pub mod Sse
pub mod Response
pub mod Limits
pub mod Metrics
pub mod ApiKeys
pub mod JobCreate
pub mod JobAccess
pub mod ProfileForm
pub mod Router
