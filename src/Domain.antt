-- ===== src/Domain.antt =====
-- apps/server/src/domain: the entities, the errors and the pure rules on them.
pub mod Text
pub mod Entities
pub mod Decimal
pub mod Errors
pub mod LicenseStatus
pub mod Sorting
pub mod Host
pub mod IpAddress
