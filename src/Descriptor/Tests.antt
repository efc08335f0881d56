-- ===== src/Descriptor/Tests.antt =====
-- Descriptors on concrete bytes.
use embassy_rp_pio_usb_host.Common.{
  ◌≡◌, refl, false, ◌||◌, [], ◌∷◌, ◌==◌, length, take, Bytes, arith,
}
use embassy_rp_pio_usb_host.Descriptor.Configuration.{parse_header}
use embassy_rp_pio_usb_host.Descriptor.Iterator.{DescriptorIter, new, items}
use embassy_rp_pio_usb_host.Descriptor.Iterator.Framing.{Framed, items-Framed}
use embassy_rp_pio_usb_host.Descriptor.Seen.{none_seen, was_seen, mark_seen}
use embassy_rp_pio_usb_host.Descriptor.Seen.Set.{mark_seen_lem}

-- A configuration of eleven bytes: its header and one descriptor of two bytes.
abbrev small_configuration : Bytes
small_configuration = 9 ∷ 2 ∷ 11 ∷ 0 ∷ 0 ∷ 1 ∷ 0 ∷ 0x80 ∷ 50 ∷ 2 ∷ 0x24 ∷ []

abbrev small_iterator : DescriptorIter
small_iterator = record {
  bytes = small_configuration;
  offset = 0;
  total_length = 11;
  failed = false;
}

items-Framed_example : Framed (take 11 small_configuration) (items small_iterator)
unfolding new parse_header
items-Framed_example = items-Framed small_configuration small_iterator refl

mark_seen_lem_example :
    ((mark_seen none_seen 33).1 ≡ was_seen none_seen 33)
    × (was_seen (mark_seen none_seen 33).0 1 ≡ (1 == 33 || was_seen none_seen 1))
    × (length (mark_seen none_seen 33).0 ≡ 8)
mark_seen_lem_example = mark_seen_lem none_seen 33 1 refl (omega arith) (omega arith)
