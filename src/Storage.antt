-- ===== src/Storage.antt =====
-- acton-dx/src/htmx/storage: the files that users upload.
pub mod Types
pub mod Policy
pub mod Validation
