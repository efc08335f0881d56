-- ===== src/Request.antt =====
-- usb.rs: `SetupRequest`, its constructors and its wire form.
mod Tests
pub mod Layout
use embassy_rp_pio_usb_host.Common.{
  ℕ, ◌+◌, ◌*◌, ◌/◌, ◌%◌, ◌^◌, Bool, List, [], ◌∷◌, Result, ok, err, ltb, if◌then◌else◌, Bytes,
  bit_or,
}

pub record SetupRequest : Type 0 where
  pub request_type : ℕ  -- u8
  pub request : ℕ  -- u8
  pub value : ℕ  -- u16
  pub index : ℕ  -- u16
  pub length : ℕ  -- u16

pub data SetupRequestError : Type 0 where
  invalid_address : SetupRequestError

-- `(high as u16) << 8 | low as u16` on bytes
abbrev pub word : ℕ → ℕ → ℕ
word high low = bit_or (high * 2 ^ 8 % 2 ^ 16) low

pub get_device_descriptor : ℕ → SetupRequest
get_device_descriptor length = record {
  request_type = 0x80;
  request = 0x06;
  value = 0x01 * 2 ^ 8;
  index = 0;
  length = length;
}

pub get_device_descriptor_prefix : SetupRequest
unfolding get_device_descriptor
get_device_descriptor_prefix = get_device_descriptor 8

pub get_configuration_descriptor : ℕ → ℕ → SetupRequest
get_configuration_descriptor index length = record {
  request_type = 0x80;
  request = 0x06;
  value = word 0x02 index;
  index = 0;
  length = length;
}

pub set_address : ℕ → Result SetupRequestError SetupRequest
set_address address =
    if ltb 0x7f address
    then err invalid_address
    else ok (record { request_type = 0x00; request = 0x05; value = address; index = 0; length = 0 })

pub set_configuration : ℕ → SetupRequest
set_configuration configuration_value = record {
  request_type = 0x00;
  request = 0x09;
  value = configuration_value;
  index = 0;
  length = 0;
}

pub get_hid_report_descriptor : ℕ → ℕ → SetupRequest
get_hid_report_descriptor interface length = record {
  request_type = 0x81;
  request = 0x06;
  value = 0x22 * 2 ^ 8;
  index = interface;
  length = length;
}

pub get_hid_report : ℕ → ℕ → ℕ → ℕ → SetupRequest
get_hid_report interface report_type report_id length = record {
  request_type = 0xa1;
  request = 0x01;
  value = word report_type report_id;
  index = interface;
  length = length;
}

pub set_hid_report : ℕ → ℕ → ℕ → ℕ → SetupRequest
set_hid_report interface report_type report_id length = record {
  request_type = 0x21;
  request = 0x09;
  value = word report_type report_id;
  index = interface;
  length = length;
}

pub get_hid_idle : ℕ → ℕ → SetupRequest
get_hid_idle interface report_id = record {
  request_type = 0xa1;
  request = 0x02;
  value = report_id;
  index = interface;
  length = 1;
}

pub set_hid_idle : ℕ → ℕ → ℕ → SetupRequest
set_hid_idle interface report_id duration_4ms = record {
  request_type = 0x21;
  request = 0x0a;
  value = word duration_4ms report_id;
  index = interface;
  length = 0;
}

pub get_hid_protocol : ℕ → SetupRequest
get_hid_protocol interface = record {
  request_type = 0xa1;
  request = 0x03;
  value = 0;
  index = interface;
  length = 1;
}

pub set_hid_protocol : ℕ → ℕ → SetupRequest
set_hid_protocol interface protocol = record {
  request_type = 0x21;
  request = 0x0b;
  value = protocol;
  index = interface;
  length = 0;
}

-- `dtr as u16`
abbrev pub as_bit : Bool → ℕ
as_bit flag = if flag then 1 else 0

pub set_control_line_state : ℕ → Bool → Bool → SetupRequest
set_control_line_state control_interface dtr rts = record {
  request_type = 0x21;
  request = 0x22;
  value = bit_or (as_bit dtr) (as_bit rts * 2);
  index = control_interface;
  length = 0;
}

pub set_line_coding : ℕ → SetupRequest
set_line_coding control_interface = record {
  request_type = 0x21;
  request = 0x20;
  value = 0;
  index = control_interface;
  length = 7;
}

pub get_line_coding : ℕ → SetupRequest
get_line_coding control_interface = record {
  request_type = 0xa1;
  request = 0x21;
  value = 0;
  index = control_interface;
  length = 7;
}

pub send_break : ℕ → ℕ → SetupRequest
send_break control_interface duration_ms = record {
  request_type = 0x21;
  request = 0x23;
  value = duration_ms;
  index = control_interface;
  length = 0;
}

pub to_bytes : SetupRequest → Bytes
to_bytes r =
    r.request_type
    ∷ r.request
    ∷ (r.value % 256)
    ∷ (r.value / 2 ^ 8 % 256)
    ∷ (r.index % 256)
    ∷ (r.index / 2 ^ 8 % 256)
    ∷ (r.length % 256)
    ∷ (r.length / 2 ^ 8 % 256)
    ∷ []
