-- ===== src/Types.antt =====
-- The types of include/test_networks/chimaera_types.h, lines 93 to 884.
pub mod UniqueId
pub mod SubDomain
pub mod Domain
pub mod Range
pub mod Selection
pub mod Query
pub mod Resolved
pub mod Timer
mod Tests
