-- ===== src/OAuth2.antt =====
-- acton-dx/src/htmx/oauth2: logging in with other providers.
pub mod Agent
