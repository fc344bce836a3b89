-- ===== src/Controllers.antt =====
-- apps/server/src/controllers: what the routes ask before they call the services.
pub mod ClientIp
