-- ===== src/Hid/Tests.antt =====
-- Discovery of HID interfaces in a concrete configuration.
use embassy_rp_pio_usb_host.Common.{
  ◌≡◌, refl, false, none, some, ok, [], ◌∷◌, Bytes, IsBytes, FirstOk, arith,
}
use embassy_rp_pio_usb_host.Descriptor.Configuration.{parse_header}
use embassy_rp_pio_usb_host.Descriptor.Endpoint
use embassy_rp_pio_usb_host.Descriptor.Endpoint.{EndpointDescriptor, is_supported_hid_interrupt}
use embassy_rp_pio_usb_host.Descriptor.Interface
use embassy_rp_pio_usb_host.Descriptor.Iterator
use embassy_rp_pio_usb_host.Descriptor.Iterator.{DescriptorIter, items, collect, next}
use embassy_rp_pio_usb_host.Hid.Descriptor
use embassy_rp_pio_usb_host.Hid.Descriptor.{missing_interface, report_len}
use embassy_rp_pio_usb_host.Hid.Candidate.{
  HidInterface, scan_parsed, scan_hid, scan_slot, scan_endpoint, scan_descriptor, scan, conclude,
  discover_candidate,
}
use embassy_rp_pio_usb_host.Hid.Candidate.Sound.{IsHidInterface, discover_candidate-IsHidInterface}
use embassy_rp_pio_usb_host.Hid.Discover
use embassy_rp_pio_usb_host.Hid.Discover.First.{hid_results, discover-FirstOk}

-- A configuration with the HID interface 3, one endpoint each way, and a report of 0x1234 bytes.
abbrev in_out_configuration : Bytes
in_out_configuration =
    0x09 ∷ 0x02 ∷ 0x29 ∷ 0x00 ∷ 0x01 ∷ 0x01 ∷ 0x00 ∷ 0x80 ∷ 0x32 ∷ 0x09 ∷ 0x04 ∷ 0x03 ∷ 0x00 ∷ 0x02
    ∷ 0x03 ∷ 0x00 ∷ 0x00 ∷ 0x07 ∷ 0x09 ∷ 0x21 ∷ 0x11 ∷ 0x01 ∷ 0x21 ∷ 0x01 ∷ 0x22 ∷ 0x34 ∷ 0x12
    ∷ 0x07 ∷ 0x05 ∷ 0x84 ∷ 0x03 ∷ 0x08 ∷ 0x00 ∷ 0x0a ∷ 0x07 ∷ 0x05 ∷ 0x04 ∷ 0x03 ∷ 0x08 ∷ 0x00
    ∷ 0x05 ∷ []

abbrev in_out_interface : HidInterface
in_out_interface = record {
  interface_number = 3;
  interface_subclass = 0;
  interface_protocol = 0;
  hid_version_bcd = 0x0111;
  country_code = 0x21;
  report_descriptor_len = 0x1234;
  interrupt_in_endpoint = record {
    address = 0x84;
    attributes = 3;
    max_packet_size = 8;
    interval = 10;
  };
  interrupt_out_endpoint =
      some (record { address = 0x04; attributes = 3; max_packet_size = 8; interval = 5 });
}

in_out_discovered : discover_candidate in_out_configuration 3 ≡ ok in_out_interface
unfolding discover_candidate scan scan_descriptor scan_parsed scan_hid scan_slot scan_endpoint
    conclude report_len Descriptor.parse Endpoint.parse Interface.parse Iterator.new items collect
    next parse_header is_supported_hid_interrupt
in_out_discovered = refl

discover_candidate-IsHidInterface_example : IsHidInterface 3 in_out_interface
discover_candidate-IsHidInterface_example =
    discover_candidate-IsHidInterface in_out_configuration 3 in_out_interface in_out_discovered

abbrev in_out_iterator : DescriptorIter
in_out_iterator = record {
  bytes = in_out_configuration;
  offset = 0;
  total_length = 0x29;
  failed = false;
}

in_out-IsBytes : IsBytes in_out_configuration
in_out-IsBytes = omega arith

discover-FirstOk_example :
    FirstOk missing_interface none
      (hid_results in_out_configuration (items in_out_iterator))
      (Discover.discover in_out_configuration)
unfolding Iterator.new parse_header
discover-FirstOk_example = discover-FirstOk in_out_configuration in_out_iterator in_out-IsBytes refl
