-- ===== src/Infrastructure.antt =====
-- apps/server/src/infrastructure and apps/server/src/db: the repositories over their stores.
pub mod Database
pub mod Redis
pub mod LicenseRepository
pub mod DeviceRepository
pub mod MeterRepository
pub mod SessionRepository
pub mod CustomerRepository
pub mod AccessRepository
pub mod SortedSets
pub mod RateLimiter
