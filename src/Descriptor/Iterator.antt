-- ===== src/Descriptor/Iterator.antt =====
-- usb.rs: `DescriptorIter`, the iterator over the descriptors of a configuration.
pub mod Framing
pub mod Content
use embassy_rp_pio_usb_host.Common.{
  ℕ, zero, suc, ◌+◌, ◌-◌, Bool, true, false, ◌||◌, List, [], ◌∷◌, Option, none, some, Result, ok,
  err, ◌>>=◌, ◌>>◌, fail_if, ltb, ◌==◌, if◌then◌else◌, length, take, drop, Bytes, byte_at,
}
use embassy_rp_pio_usb_host.Descriptor.Configuration.{
  ConfigurationError, descriptor_overrun, invalid_descriptor_length, parse_header,
}

pub record DescriptorIter : Type 0 where
  pub bytes : Bytes
  pub offset : ℕ
  pub total_length : ℕ
  pub failed : Bool

-- `DescriptorIter::new`
unfoldable pub new : Bytes → Result ConfigurationError DescriptorIter
new bytes = do
  header ← parse_header bytes
  fail_if (ltb (length bytes) header.total_length) descriptor_overrun
  ok (record { bytes = bytes; offset = 0; total_length = header.total_length; failed = false })

abbrev fail :
    DescriptorIter → ConfigurationError → Option (Result ConfigurationError Bytes) × DescriptorIter
fail it error = (some (err error), record it { failed = true })

-- `&self.bytes[start..end]`
abbrev pub slice : Bytes → ℕ → ℕ → Bytes
slice bytes start end = take (end - start) (drop start bytes)

-- The last part of `next`, with the descriptor's length byte.
next_of_length : DescriptorIter → ℕ → Option (Result ConfigurationError Bytes) × DescriptorIter
next_of_length it descriptor_length =
    if ltb descriptor_length 2
    then fail it invalid_descriptor_length
    else if ltb (it.total_length - it.offset) descriptor_length
    then fail it descriptor_overrun
    else (
      some (ok (slice it.bytes it.offset (it.offset + descriptor_length))),
      record it { offset = it.offset + descriptor_length },
    )

-- `DescriptorIter::next`. The offset never passes the total length, so the differences are exact.
unfoldable pub next : DescriptorIter → Option (Result ConfigurationError Bytes) × DescriptorIter
unfolding next_of_length
next it =
    if it.failed || it.offset == it.total_length
    then (none, it)
    else if ltb (it.total_length - it.offset) 2
    then fail it descriptor_overrun
    else next_of_length it (byte_at it.bytes it.offset)

-- All items of a `for` loop over the iterator, on fuel.
unfoldable pub collect : ℕ → DescriptorIter → List (Result ConfigurationError Bytes)
collect zero it = []
collect (suc fuel) it =
    let (item, it') = next it in
    let rest = collect fuel it' in elim item [ none ↦ [] | some r ↦ r ∷ rest ]

-- Each item but the last moves the offset by two at least, so this fuel is enough.
unfoldable pub items : DescriptorIter → List (Result ConfigurationError Bytes)
unfolding collect next
items it = collect (suc it.total_length) it
