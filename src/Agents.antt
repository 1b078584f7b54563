-- ===== src/Agents.antt =====
-- acton-dx/src/htmx/agents: the actors. A handler of an actor is a function on its model; the
-- messages of an actor are handled one after the other.
pub mod SessionManager
pub mod CsrfManager
pub mod Circuit
pub mod ServiceCoordinator
pub mod RateLimiter
