-- ===== src/Authz.antt =====
-- dashboard/internal/authz: the cache of authentications, the middleware, and the calls of the daemon.
pub mod Cache
pub mod Middleware
pub mod Client
