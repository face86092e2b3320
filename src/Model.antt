-- ===== src/Model.antt =====
-- pkg/model: the API model that every document is parsed into and every template reads.
pub mod Data
pub mod Lookup
pub mod Fqn
pub mod Naming
pub mod Resolve
pub mod Validate
pub mod Checksum
pub mod Identify
pub mod Visit
pub mod Words
