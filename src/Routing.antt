-- ===== src/Routing.antt =====
-- sifter/src/aa_sifter/routing: the assessment of a task, the route that policy gives it, the budget of
-- cloud calls, and escalation.

pub mod Preflight
pub mod Policy
pub mod Budget
pub mod Escalation
