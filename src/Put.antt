-- ===== src/Put.antt =====
-- put/, the project's utilities.
pub mod Ring
pub mod Cycles
pub mod Numbers
pub mod Text
pub mod Stacktrace
pub mod Assert
mod Tests
pub mod EtherAddr
