-- ===== src/Examples.antt =====
-- A server in memory, and the theorems at concrete inputs.
mod Server
mod Resources
mod Tests
mod Agents
mod Effects
mod Objects
mod Deployed
mod Manager
mod Clients
mod Providers
mod Sonobuoy
