-- ===== src/Mgmt.antt =====
-- mgmt/, the management of the generator.
pub mod Config
pub mod Messages
pub mod Protocol
pub mod Queue
pub mod Manager
mod Tests
pub mod Server
