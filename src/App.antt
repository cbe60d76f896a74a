-- ===== src/App.antt =====
-- app/, the application and its settings.
pub mod Config
pub mod Eal
pub mod Main
