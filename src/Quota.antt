-- ===== src/Quota.antt =====
-- internal/quota/cache.go: the last collected snapshot, and when it is collected again.
pub mod Cache
