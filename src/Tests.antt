-- ===== src/Tests.antt =====
-- The properties at concrete inputs, with the services that the program does not implement given by
-- concrete functions.
pub mod Memory
mod Status
pub mod Meters
mod Sessions
mod Licenses
mod Admin
mod Access
mod Limits
mod Proxies
