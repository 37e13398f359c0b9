-- ===== src/Agents.antt =====
-- agent: the agents that run in the jobs' containers.
pub mod TestAgent
pub mod ResourceAgent
pub mod Utils
