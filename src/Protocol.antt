-- ===== src/Protocol.antt =====
-- The package protocol: the provider-neutral documents, their validation and their errors.
pub mod Error
pub mod Text
pub mod Identity
pub mod Sequence
pub mod Signed
pub mod Approval
pub mod Terminal
pub mod Capability
pub mod Content
pub mod Distinct
pub mod Manifest
pub mod Evidence
pub mod Verification
