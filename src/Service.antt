-- ===== src/Service.antt =====
-- internal/domain/service
pub mod Topo
pub mod Manager
pub mod Entity
