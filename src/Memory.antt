-- ===== src/Memory.antt =====
-- app/storage/store/memory: the in-memory store. memory.go (Store), util.go (paging and AddResult),
-- uptime.go (the hourly statistics). Store is a pair of caches of the library gocache, which is
-- not in the repository: Memory/Cache says what is asked of it.
pub mod Cache
pub mod Paging
pub mod HourlyStats
pub mod History
pub mod Store
mod Examples
