-- ===== src/Controller/Resource.antt =====
-- controller/src/resource_controller: the controller of the resource objects.
pub mod Interface
pub mod Action
pub mod Reconcile
pub mod Start
pub mod Creation
pub mod Removal
pub mod Policy
pub mod Guards
pub mod Limits
pub mod Progress
