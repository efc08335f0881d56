-- ===== src/Usbtmc.antt =====
-- usbtmc.rs: the USB test and measurement class.
pub mod Discovery
pub mod Message
