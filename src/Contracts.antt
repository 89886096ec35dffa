-- ===== src/Contracts.antt =====
-- server/packages/voice_contracts: what the Director, the Workers and the devices share.
pub mod RouteKey
pub mod Models
pub mod Grants
pub mod Validation
pub mod Samples
