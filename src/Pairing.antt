-- ===== src/Pairing.antt =====
-- internal/pairing: the gateway's trust bootstrap.
pub mod Types
pub mod Locked
pub mod Challenges
pub mod Completion
pub mod Credentials
pub mod Refresh
pub mod Startup
pub mod Cases
pub mod Sides
pub mod Index
pub mod Indexing
pub mod Rotating
pub mod OneActive
pub mod Approval
pub mod Completing
pub mod Histories
pub mod Consent
pub mod LocalApproval
