-- ===== src/Bottlerocket.antt =====
-- bottlerocket/agents: the agents that test Bottlerocket.
pub mod Sonobuoy
pub mod Workload
pub mod Provider
pub mod Userdata
pub mod AgentConfig
pub mod Ec2
pub mod Ecs
pub mod Policy
pub mod Eks
