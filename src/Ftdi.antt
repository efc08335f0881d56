-- ===== src/Ftdi.antt =====
-- ftdi.rs: the chip of an FTDI device and the discovery of its vendor interface.
mod Tests
pub mod Discovery
pub mod Read
use embassy_rp_pio_usb_host.Common.{ℕ, Bool, true, false, not, ◌&&◌, ◌==◌, if◌then◌else◌}
use embassy_rp_pio_usb_host.Descriptor.Device.{DeviceDescriptor}

pub data FtdiChip : Type 0 where
  ft232_am ft232_bm ft2232_c ft232_r ft2232_h ft4232_h ft232_h ft230_x : FtdiChip

-- `FtdiChip::detect`
abbrev pub detect : DeviceDescriptor → FtdiChip
detect device =
    let version = device.device_version_bcd in
    if version == 0x0200 && not (device.serial_number_string_index == 0)
    then FtdiChip.ft232_am
    else if version == 0x0200
    then FtdiChip.ft232_bm
    else if version == 0x0400
    then FtdiChip.ft232_bm
    else if version == 0x0500
    then FtdiChip.ft2232_c
    else if version == 0x0600
    then FtdiChip.ft232_r
    else if version == 0x0700
    then FtdiChip.ft2232_h
    else if version == 0x0800
    then FtdiChip.ft4232_h
    else if version == 0x0900
    then FtdiChip.ft232_h
    else if version == 0x1000
    then FtdiChip.ft230_x
    else FtdiChip.ft232_bm

abbrev pub is_multi_channel : FtdiChip → Bool
is_multi_channel FtdiChip.ft2232_c = true
is_multi_channel FtdiChip.ft2232_h = true
is_multi_channel FtdiChip.ft4232_h = true
is_multi_channel _ = false

abbrev pub is_h_type : FtdiChip → Bool
is_h_type FtdiChip.ft2232_h = true
is_h_type FtdiChip.ft4232_h = true
is_h_type FtdiChip.ft232_h = true
is_h_type _ = false
