-- ===== src/Hid.antt =====
-- usb.rs: discovery of HID interfaces in a configuration.
mod Tests
pub mod Descriptor
pub mod Candidate
pub mod Discover
