-- ===== src/Keycloak.antt =====
-- pkg/keycloak
pub mod Types
pub mod Template
pub mod Http
pub mod Interface
pub mod Server
pub mod Client
pub mod Traffic
