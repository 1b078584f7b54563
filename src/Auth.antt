-- ===== src/Auth.antt =====
-- acton-dx/src/htmx/auth: what a session holds.
pub mod Session
