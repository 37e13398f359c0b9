-- ===== src/Controller/Test.antt =====
-- controller/src/test_controller: the controller of the test objects.
pub mod Readiness
pub mod Action
pub mod Reconcile
pub mod Retry
pub mod Start
pub mod Removal
