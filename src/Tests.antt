-- ===== src/Tests.antt =====
-- The theorems at concrete inputs, over a small outside world.
mod World
mod Requests
mod Phases
mod Users
mod Ends
mod Cluster
mod Database
mod Realm
mod Rest
mod Served
mod Mapped
mod System
mod Start
mod Copies
