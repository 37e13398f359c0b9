-- ===== src/Clients.antt =====
-- model/src/clients: the clients of the custom resources.
pub mod Objects
pub mod Waiting
pub mod Templates
pub mod HttpStatusCode
pub mod Error
pub mod JsonPatch
pub mod CrdClient
pub mod ResourceClient
pub mod TestClient
