-- ===== src/CdcAcm.antt =====
-- usb.rs: discovery of CDC-ACM functions in a configuration.
mod Tests
pub mod Data
pub mod Control
pub mod Candidate
pub mod Functions
