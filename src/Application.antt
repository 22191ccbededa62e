-- ===== src/Application.antt =====
-- internal/application: the template registry and the mail service.
pub mod FilePath
pub mod KeyMap
pub mod Registry
pub mod Service
