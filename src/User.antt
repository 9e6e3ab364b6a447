-- ===== src/User.antt =====
-- pkg/controller/rhpamuser
pub mod Defaults
pub mod Members
pub mod Pairs
pub mod Sync
pub mod Phases
pub mod Reconcile
pub mod Handover
pub mod Mildness
pub mod Graph
pub mod Deletion
pub mod Advance
