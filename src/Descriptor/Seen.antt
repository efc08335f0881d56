-- ===== src/Descriptor/Seen.antt =====
-- usb.rs: the set of interface numbers that an iterator over functions has met, `[u32; 8]` and
-- `mark_seen` of `HidInterfaces`; `CdcAcmFunctions` has the same.
pub mod Set
pub mod Distinct
use embassy_rp_pio_usb_host.Common.{
  ℕ, ◌/◌, ◌%◌, ◌^◌, Bool, not, List, ◌==◌, get_or, set, replicate, bit_and, bit_or,
}

abbrev pub Seen : Type 0
Seen = List ℕ

abbrev pub none_seen : Seen
none_seen = replicate 8 0

-- `self.seen_interfaces[word] & mask != 0`
pub was_seen : Seen → ℕ → Bool
was_seen seen interface = not (bit_and (get_or seen (interface / 32) 0) (2 ^ (interface % 32)) == 0)

-- The set afterwards, and whether the interface was in it before.
pub mark_seen : Seen → ℕ → Seen × Bool
unfolding was_seen
mark_seen seen interface =
    let word = interface / 32 in
    let mask = 2 ^ (interface % 32) in
    (set seen word (bit_or (get_or seen word 0) mask), was_seen seen interface)
