-- ===== src/Thallium.antt =====
-- include/test_networks/rpc_thallium.h: the remote calls. Thallium is not in the repository: what
-- it answers is the argument `net`.
pub mod Action
pub mod Bulk
pub mod Rpc
pub mod Nodes
pub mod OneWay
pub mod Init
pub mod Calls
pub mod Tests
