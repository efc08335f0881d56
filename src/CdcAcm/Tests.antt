-- ===== src/CdcAcm/Tests.antt =====
-- Discovery of a CDC-ACM function in a concrete configuration.
use embassy_rp_pio_usb_host.Common.{
  ◌≡◌, refl, false, none, some, ok, [], ◌∷◌, Bytes, IsBytes, FirstOk, arith,
}
use embassy_rp_pio_usb_host.Descriptor.Configuration.{parse_header, missing_control_interface}
use embassy_rp_pio_usb_host.Descriptor.Endpoint
use embassy_rp_pio_usb_host.Descriptor.Endpoint.{is_supported_bulk, is_supported_interrupt_in}
use embassy_rp_pio_usb_host.Descriptor.Interface
use embassy_rp_pio_usb_host.Descriptor.Iterator
use embassy_rp_pio_usb_host.Descriptor.Iterator.{DescriptorIter, items, collect, next}
use embassy_rp_pio_usb_host.CdcAcm.Data.{
  DataInterface, data_parsed, data_slot, data_endpoint, data_descriptor_step, data_scan,
  data_interface, data_conclude, discover_data_interface, exists_parsed, exists_scan,
  interface_exists,
}
use embassy_rp_pio_usb_host.CdcAcm.Data.Sound.{
  IsDataInterface, discover_data_interface-IsDataInterface,
}
use embassy_rp_pio_usb_host.CdcAcm.Control.{
  control_parsed, control_header, control_call_management, control_acm, control_union,
  control_subtype, control_functional, control_endpoint, control_descriptor_step, control_scan,
}
use embassy_rp_pio_usb_host.CdcAcm.Candidate.{
  CdcAcmFunction, check_subordinates, select_data, choose_data, control_conclude,
  discover_candidate,
}
use embassy_rp_pio_usb_host.CdcAcm.Candidate.Sound.{
  IsCdcAcmFunction, discover_candidate-IsCdcAcmFunction,
}
use embassy_rp_pio_usb_host.CdcAcm.Functions
use embassy_rp_pio_usb_host.CdcAcm.Functions.First.{acm_results, discover-FirstFunction}

-- The configuration of a serial dongle: control interface 0 and data interface 1.
abbrev dongle_configuration : Bytes
dongle_configuration =
    0x09 ∷ 0x02 ∷ 0x43 ∷ 0x00 ∷ 0x02 ∷ 0x01 ∷ 0x04 ∷ 0x80 ∷ 0x32 ∷ 0x09 ∷ 0x04 ∷ 0x00 ∷ 0x00 ∷ 0x01
    ∷ 0x02 ∷ 0x02 ∷ 0x01 ∷ 0x05 ∷ 0x05 ∷ 0x24 ∷ 0x00 ∷ 0x10 ∷ 0x01 ∷ 0x05 ∷ 0x24 ∷ 0x01 ∷ 0x03
    ∷ 0x01 ∷ 0x04 ∷ 0x24 ∷ 0x02 ∷ 0x06 ∷ 0x05 ∷ 0x24 ∷ 0x06 ∷ 0x00 ∷ 0x01 ∷ 0x07 ∷ 0x05 ∷ 0x83
    ∷ 0x03 ∷ 0x40 ∷ 0x00 ∷ 0x01 ∷ 0x09 ∷ 0x04 ∷ 0x01 ∷ 0x00 ∷ 0x02 ∷ 0x0a ∷ 0x00 ∷ 0x00 ∷ 0x06
    ∷ 0x07 ∷ 0x05 ∷ 0x81 ∷ 0x02 ∷ 0x40 ∷ 0x00 ∷ 0x01 ∷ 0x07 ∷ 0x05 ∷ 0x02 ∷ 0x02 ∷ 0x40 ∷ 0x00
    ∷ 0x01 ∷ []

abbrev dongle_data : DataInterface
dongle_data = record {
  number = 1;
  bulk_out_endpoint = record { address = 0x02; attributes = 2; max_packet_size = 64; interval = 1 };
  bulk_in_endpoint = record { address = 0x81; attributes = 2; max_packet_size = 64; interval = 1 };
}

abbrev dongle_function : CdcAcmFunction
dongle_function = record {
  configuration = record {
    total_length = 67;
    num_interfaces = 2;
    configuration_value = 1;
    string_index = 4;
    attributes = 0x80;
    max_power_ma = 100;
  };
  control_interface = 0;
  data_interface = 1;
  cdc_version_bcd = 0x0110;
  acm_capabilities = 6;
  notification_endpoint =
      some (record { address = 0x83; attributes = 3; max_packet_size = 64; interval = 1 });
  bulk_out_endpoint = dongle_data.bulk_out_endpoint;
  bulk_in_endpoint = dongle_data.bulk_in_endpoint;
}

dongle_data_discovered : discover_data_interface dongle_configuration 1 ≡ ok (some dongle_data)
unfolding discover_data_interface data_scan data_descriptor_step data_parsed data_endpoint data_slot
    data_interface data_conclude Endpoint.parse Interface.parse Iterator.new items collect next
    parse_header is_supported_bulk
dongle_data_discovered = refl

discover_data_interface-IsDataInterface_example : IsDataInterface 1 dongle_data
discover_data_interface-IsDataInterface_example =
    discover_data_interface-IsDataInterface dongle_configuration 1 dongle_data
      dongle_data_discovered

dongle_discovered : discover_candidate dongle_configuration 0 ≡ ok dongle_function
unfolding discover_candidate control_conclude choose_data select_data check_subordinates
    interface_exists exists_scan exists_parsed control_scan control_descriptor_step control_endpoint
    control_functional control_subtype control_union control_acm control_call_management
    control_header control_parsed discover_data_interface data_scan data_descriptor_step data_parsed
    data_endpoint data_slot data_interface data_conclude Endpoint.parse Interface.parse Iterator.new
    items collect next parse_header is_supported_bulk is_supported_interrupt_in
dongle_discovered = refl

discover_candidate-IsCdcAcmFunction_example :
    IsCdcAcmFunction dongle_configuration 0 dongle_function
discover_candidate-IsCdcAcmFunction_example =
    discover_candidate-IsCdcAcmFunction dongle_configuration 0 dongle_function dongle_discovered

abbrev dongle_iterator : DescriptorIter
dongle_iterator = record {
  bytes = dongle_configuration;
  offset = 0;
  total_length = 67;
  failed = false;
}

dongle-IsBytes : IsBytes dongle_configuration
dongle-IsBytes = omega arith

discover-FirstFunction_example :
    FirstOk missing_control_interface none
      (acm_results dongle_configuration (items dongle_iterator))
      (Functions.discover dongle_configuration)
unfolding Iterator.new parse_header
discover-FirstFunction_example =
    discover-FirstFunction dongle_configuration dongle_iterator dongle-IsBytes refl
