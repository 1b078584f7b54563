-- ===== src/Scaffold.antt =====
-- The generator of acton-dx/src/cli/htmx/scaffold, as far as its field definitions.
pub mod Types
pub mod Fields
