-- ===== src/Controller.antt =====
-- controller/src: the controllers of the resource and the test objects.
pub mod Error
pub mod Utils
pub mod Requeue
pub mod Job
pub mod Cluster
pub mod Resource
pub mod Test
