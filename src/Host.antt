-- ===== src/Host.antt =====
-- pio_host.rs: the adapter that shares one packet engine among logical pipes.
pub mod Types
pub mod Port
pub mod Events
pub mod Shared
pub mod Validate
pub mod Pipe
pub mod Engine
pub mod Delivery
