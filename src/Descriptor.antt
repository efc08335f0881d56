-- ===== src/Descriptor.antt =====
-- usb.rs: the descriptors that enumeration reads.
mod Tests
pub mod Device
pub mod Configuration
pub mod Iterator
pub mod Endpoint
pub mod Interface
pub mod Seen
