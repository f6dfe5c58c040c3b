-- ===== src/Watchdog.antt =====
-- The package app/watchdog: what a health check of an endpoint, a heartbeat of an external endpoint
-- and an execution of a suite do, and the alerting that follows; and the results of external
-- endpoints that are pushed to app/api/external_endpoint.go.
pub mod Alerting
pub mod Checks
pub mod Push
mod Examples
