-- ===== src/Gen.antt =====
-- gen/, the generation of packets.
pub mod Rotation
pub mod Ops
pub mod Handle
pub mod Loader
pub mod Pool
pub mod Flows
pub mod World
pub mod Capture
pub mod Device
pub mod Build
pub mod Manager
pub mod Tests
