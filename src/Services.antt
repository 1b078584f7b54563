-- ===== src/Services.antt =====
-- services: the servers beside the applications, as far as their own state goes.
pub mod Sessions
pub mod Files
pub mod Tokens
