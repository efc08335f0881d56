-- ===== src/Wire.antt =====
-- usb.rs, the wire layer: packet identifiers, checksums, packets, line coding, data toggles.
pub mod Pid
pub mod Crc
pub mod Packet
pub mod Nrzi
pub mod Toggle
