-- ===== src/Turns.antt =====
-- internal/turns: the cross-device status of prompt turns.
pub mod Types
pub mod Keys
pub mod Store
pub mod Diff
pub mod Feed
