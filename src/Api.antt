-- ===== src/Api.antt =====
-- Parts of app/api: Pages is util.go, Badge and ResponseTime are of badge.go.
pub mod Pages
pub mod Badge
pub mod ResponseTime
mod Examples
