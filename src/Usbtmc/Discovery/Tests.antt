-- ===== src/Usbtmc/Discovery/Tests.antt =====
-- The configuration of an oscilloscope with an interrupt endpoint.
use embassy_rp_pio_usb_host.Common.{◌≡◌, refl, some, ok, [], ◌∷◌, Bytes}
use embassy_rp_pio_usb_host.Descriptor.Configuration.{parse_header}
use embassy_rp_pio_usb_host.Descriptor.Iterator
use embassy_rp_pio_usb_host.Descriptor.Iterator.{items, collect, next}
use embassy_rp_pio_usb_host.Usbtmc.Discovery.{
  UsbtmcInterface, parse_endpoint, tmc_select, tmc_interface, tmc_slot, tmc_step, tmc_scan,
  tmc_conclude, discover,
}
use embassy_rp_pio_usb_host.Usbtmc.Discovery.Sound.{IsUsbtmcInterface, discover-IsUsbtmcInterface}

abbrev scope_configuration : Bytes
scope_configuration =
    9 ∷ 2 ∷ 39 ∷ 0 ∷ 1 ∷ 1 ∷ 0 ∷ 0xc0 ∷ 0 ∷ 9 ∷ 4 ∷ 0 ∷ 0 ∷ 3 ∷ 0xfe ∷ 0x03 ∷ 0x01 ∷ 0 ∷ 7 ∷ 5
    ∷ 0x01 ∷ 2 ∷ 64 ∷ 0 ∷ 0 ∷ 7 ∷ 5 ∷ 0x82 ∷ 2 ∷ 64 ∷ 0 ∷ 0 ∷ 7 ∷ 5 ∷ 0x83 ∷ 3 ∷ 2 ∷ 0 ∷ 1 ∷ []

abbrev scope_interface : UsbtmcInterface
scope_interface = record {
  configuration = record {
    total_length = 39;
    num_interfaces = 1;
    configuration_value = 1;
    string_index = 0;
    attributes = 0xc0;
    max_power_ma = 0;
  };
  interface_number = 0;
  protocol = 1;
  bulk_out_endpoint = record { address = 0x01; attributes = 2; max_packet_size = 64; interval = 0 };
  bulk_in_endpoint = record { address = 0x82; attributes = 2; max_packet_size = 64; interval = 0 };
  interrupt_in_endpoint =
      some (record { address = 0x83; attributes = 3; max_packet_size = 2; interval = 1 });
}

scope_discovered : discover scope_configuration ≡ ok scope_interface
unfolding discover tmc_conclude tmc_scan tmc_step tmc_interface tmc_select tmc_slot parse_endpoint
    parse_header Iterator.new items collect next
scope_discovered = refl

discover-IsUsbtmcInterface_example : IsUsbtmcInterface scope_configuration scope_interface
discover-IsUsbtmcInterface_example =
    discover-IsUsbtmcInterface scope_configuration scope_interface scope_discovered
