-- ===== src/Provider.antt =====
-- The package provider: the SDK's server and client of the provider protocol.
pub mod Limits
pub mod Flow
pub mod Frame
pub mod Admission
pub mod Initialize
pub mod Idempotency
pub mod RpcError
