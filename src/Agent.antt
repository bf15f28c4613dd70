-- ===== src/Agent.antt =====
-- internal/agent: the health of the collectors, and the attribution of an event.
pub mod Health
pub mod Attribution
