-- ===== src/Middleware.antt =====
-- acton-dx/src/htmx/middleware: what stands between a request and its handler.
pub mod FileServing
pub mod RateLimit
pub mod Csrf
pub mod Session
pub mod Cedar
