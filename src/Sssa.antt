-- ===== src/Sssa.antt =====
-- sssa/: Shamir's secret sharing.
pub mod Lagrange
pub mod Field
pub mod Hex
pub mod Base64
pub mod Text
pub mod Combine
pub mod Draw
pub mod Create
pub mod Keys
pub mod PubFirst
pub mod Demonstrations
pub mod Pubs
pub mod Threshold
pub mod Deal
mod Tests
