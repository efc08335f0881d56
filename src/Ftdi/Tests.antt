-- ===== src/Ftdi/Tests.antt =====
-- Discovery of the interface of a concrete FTDI device.
use embassy_rp_pio_usb_host.Common.{◌≡◌, refl, some, ok, [], ◌∷◌, Bytes}
use embassy_rp_pio_usb_host.Descriptor.Device.{DeviceDescriptor}
use embassy_rp_pio_usb_host.Descriptor.Configuration.{parse_header}
use embassy_rp_pio_usb_host.Descriptor.Iterator
use embassy_rp_pio_usb_host.Descriptor.Iterator.{items, collect, next}
use embassy_rp_pio_usb_host.Ftdi.Discovery.{
  FtdiInterface, parse_bulk_endpoint, ftdi_select, ftdi_interface, ftdi_slot, ftdi_endpoint,
  ftdi_step, ftdi_scan, ftdi_conclude, discover_interface,
}
use embassy_rp_pio_usb_host.Ftdi.Discovery.Sound.{
  IsFtdiInterface, discover_interface-IsFtdiInterface,
}

abbrev serial_device : DeviceDescriptor
serial_device = record {
  usb_version_bcd = 0x0200;
  device_class = 0;
  device_subclass = 0;
  device_protocol = 0;
  max_packet_size0 = 8;
  vendor_id = 0x0403;
  product_id = 0x6001;
  device_version_bcd = 0x0600;
  manufacturer_string_index = 1;
  product_string_index = 2;
  serial_number_string_index = 3;
  num_configurations = 1;
}

abbrev serial_configuration : Bytes
serial_configuration =
    9 ∷ 2 ∷ 32 ∷ 0 ∷ 1 ∷ 1 ∷ 0 ∷ 0x80 ∷ 50 ∷ 9 ∷ 4 ∷ 0 ∷ 0 ∷ 2 ∷ 0xff ∷ 0xff ∷ 0xff ∷ 0 ∷ 7 ∷ 5
    ∷ 0x81 ∷ 2 ∷ 64 ∷ 0 ∷ 0 ∷ 7 ∷ 5 ∷ 0x02 ∷ 2 ∷ 64 ∷ 0 ∷ 0 ∷ []

abbrev serial_interface : FtdiInterface
serial_interface = record {
  configuration = record {
    total_length = 32;
    num_interfaces = 1;
    configuration_value = 1;
    string_index = 0;
    attributes = 0x80;
    max_power_ma = 100;
  };
  interface_number = 0;
  interface_subclass = 0xff;
  interface_protocol = 0xff;
  bulk_out_endpoint = record { address = 0x02; attributes = 2; max_packet_size = 64; interval = 0 };
  bulk_in_endpoint = record { address = 0x81; attributes = 2; max_packet_size = 64; interval = 0 };
}

serial_discovered :
    discover_interface serial_device serial_configuration (some 0) ≡ ok serial_interface
unfolding discover_interface ftdi_conclude ftdi_scan ftdi_step ftdi_interface ftdi_select
    ftdi_endpoint ftdi_slot parse_bulk_endpoint parse_header Iterator.new items collect next
serial_discovered = refl

discover_interface-IsFtdiInterface_example :
    IsFtdiInterface serial_device serial_configuration (some 0) serial_interface
discover_interface-IsFtdiInterface_example =
    discover_interface-IsFtdiInterface serial_device serial_configuration (some 0) serial_interface
      serial_discovered
