-- ===== src/Dev.antt =====
-- pkg/controller/rhpamdev
pub mod Mildness
pub mod Graph
pub mod Progress
pub mod Names
pub mod Template
pub mod Token
pub mod Configmap
pub mod Resources
pub mod Realm
pub mod Phases
pub mod Deprovision
pub mod Reconcile
pub mod Deletion
pub mod Advance
pub mod Installed
