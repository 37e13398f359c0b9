-- ===== src/Model.antt =====
-- model/src: the custom resources of TestSys.
pub mod Json
pub mod Constants
pub mod Meta
pub mod Agent
pub mod Resource
pub mod Test
pub mod Crd
