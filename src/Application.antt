-- ===== src/Application.antt =====
-- apps/server/src/application/services: the services over the repositories.
pub mod Exec
pub mod Activity
pub mod LicenseService
pub mod AdminService
pub mod ActivityService
