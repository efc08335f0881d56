-- ===== src/Host/Delivery/Bench.antt =====
-- A device on a bus that loses packets and acknowledgements by a script.
use embassy_rp_pio_usb_host.Common.{
  ℕ, ◌≡◌, Bool, true, false, List, [], ◌∷◌, ◌++◌, Result, ok, refl, ap, ◌⊎◌, inl, inr, Bytes,
  IsBytes, ◌==◌, if◌then◌else◌, arith,
}
use embassy_rp_pio_usb_host.Wire.Pid.{pid_ack, pid_nak}
use embassy_rp_pio_usb_host.Wire.Packet.{
  RawDataPacket, PacketError, ParsedPacket, new, as_bytes, parse_packet,
}
use embassy_rp_pio_usb_host.Wire.Packet.Data.{parse_packet-as_bytes}
use embassy_rp_pio_usb_host.Wire.Toggle.{DataToggle, pid, after_ack}
use embassy_rp_pio_usb_host.Host.Pipe.Transfer.{Endpoint}
use embassy_rp_pio_usb_host.Host.Engine.{ReceiveResult, PipeTarget, Wire}
use embassy_rp_pio_usb_host.Host.Engine.Out.{IsKept, IsUsbOut}

-- What happens to a transaction.
pub data Fault : Type 0 where
  fine lost_packet lost_acknowledgement busy : Fault

pub record Bench : Type 0 where
  pub script : List Fault
  pub stored : List Bytes
  pub next : DataToggle
  pub reply : ReceiveResult

is_next : ℕ → DataToggle → Bool
is_next data_pid next = data_pid == pid next

-- A packet that reaches the device: it is stored when it has the expected toggle.
offer : ℕ → Bytes → Bench → Bench
offer data_pid payload bench =
    if is_next data_pid bench.next
    then record bench { stored = bench.stored ++ (payload ∷ []); next = after_ack bench.next }
    else bench

hear : Fault → Result PacketError ParsedPacket → Bench → Bench
hear Fault.fine (ok (ParsedPacket.data_packet data_pid payload)) bench =
    record (offer data_pid payload bench) { reply = ReceiveResult.handshake pid_ack }
hear Fault.lost_acknowledgement (ok (ParsedPacket.data_packet data_pid payload)) bench =
    record (offer data_pid payload bench) { reply = ReceiveResult.no_start }
hear Fault.busy parsed bench = record bench { reply = ReceiveResult.handshake pid_nak }
hear fault parsed bench = record bench { reply = ReceiveResult.no_start }

play : Bytes → List Fault → Bench → Bench
play packet [] bench = hear Fault.fine (parse_packet packet) bench
play packet (fault ∷ script) bench =
    hear fault (parse_packet packet) (record bench { script = script })

pub bench_wire : Wire Bench
bench_wire = record {
  start_frame = λ b. (ok tt, b);
  park_receive = λ b. (ok tt, b);
  transmit_token_data_pair = λ token packet b. (true, play packet b.script b);
  receive_handshake = λ b. (b.reply, b);
}

abbrev pub bench_endpoint : Endpoint Bench
bench_endpoint = record { received = λ b. b.stored; expects = λ b. b.next }

is_next_lem :
    (toggle next : DataToggle)
    → ((is_next (pid toggle) next ≡ true) × (next ≡ toggle))
      ⊎ ((is_next (pid toggle) next ≡ false) × (next ≡ after_ack toggle))
unfolding is_next after_ack
is_next_lem DataToggle.data0 DataToggle.data0 = inl (refl, refl)
is_next_lem DataToggle.data0 DataToggle.data1 = inr (refl, refl)
is_next_lem DataToggle.data1 DataToggle.data0 = inr (refl, refl)
is_next_lem DataToggle.data1 DataToggle.data1 = inl (refl, refl)

-- The rules for one packet, between two states of the bench.
record Follows (toggle : DataToggle) (payload : Bytes) (bench later : Bench) : Type 0 where
  stores :
      IsKept bench_endpoint bench later
      ⊎ ((bench.next ≡ toggle)
          × (later.next ≡ after_ack toggle)
          × (later.stored ≡ bench.stored ++ (payload ∷ [])))
  acknowledged : later.reply ≡ ReceiveResult.handshake pid_ack → later.next ≡ after_ack toggle

offer-Follows :
    (toggle : DataToggle) (payload : Bytes) (bench : Bench) (reply : ReceiveResult)
    → Follows toggle payload bench (record (offer (pid toggle) payload bench) { reply = reply })
unfolding offer
offer-Follows toggle payload bench reply = elim (is_next_lem toggle bench.next) [
  | inl (e, expected) ↦ rw e (record {
    stores = inr (expected, ap after_ack expected, refl);
    acknowledged = λ _. ap after_ack expected;
  })
  | inr (e, seen) ↦ rw e (record {
    stores = inl (record { received_kept = refl; expects_kept = refl });
    acknowledged = λ _. seen;
  })
]

hear-Follows :
    (fault : Fault) (toggle : DataToggle) (payload : Bytes) (bench : Bench)
    → Follows toggle payload bench
        (hear fault (ok (ParsedPacket.data_packet (pid toggle) payload)) bench)
unfolding hear
hear-Follows Fault.fine toggle payload bench =
    offer-Follows toggle payload bench (ReceiveResult.handshake pid_ack)
hear-Follows Fault.lost_acknowledgement toggle payload bench =
    offer-Follows toggle payload bench ReceiveResult.no_start
hear-Follows Fault.lost_packet toggle payload bench = record {
  stores = inl (record { received_kept = refl; expects_kept = refl });
  acknowledged = λ q. cc;
}
hear-Follows Fault.busy toggle payload bench = record {
  stores = inl (record { received_kept = refl; expects_kept = refl });
  acknowledged = λ q. absurd (ground arith);
}

play-Follows :
    (toggle : DataToggle) (payload : Bytes) (packet : Bytes) (script : List Fault) (bench : Bench)
    → parse_packet packet ≡ ok (ParsedPacket.data_packet (pid toggle) payload)
    → Follows toggle payload bench (play packet script bench)
unfolding play
play-Follows toggle payload packet [] bench e = rw e (hear-Follows Fault.fine toggle payload bench)
play-Follows toggle payload packet (fault ∷ script) bench e =
    let f = hear-Follows fault toggle payload (record bench { script = script }) in
    rw e (record {
      stores = elim f.stores [
        | inl k ↦ inl (record { received_kept = k.received_kept; expects_kept = k.expects_kept })
        | inr moved ↦ inr moved
      ];
      acknowledged = f.acknowledged;
    })

pub bench-IsUsbOut : (target : PipeTarget) → IsUsbOut bench_endpoint bench_wire target
unfolding bench_wire
bench-IsUsbOut target =
    let follows : (toggle : DataToggle) (payload : Bytes) (packet : RawDataPacket) (b : Bench)
        → IsBytes payload
        → new (pid toggle) payload ≡ ok packet
        → Follows toggle payload b (play (as_bytes packet) b.script b) =
      λ toggle payload packet b bs h.
        play-Follows toggle payload (as_bytes packet) b.script b
          (parse_packet-as_bytes (pid toggle) payload packet h bs) in
    record {
      start_frame_keeps = λ b. record { received_kept = refl; expects_kept = refl };
      park_receive_keeps = λ b. record { received_kept = refl; expects_kept = refl };
      receive_handshake_keeps = λ b. record { received_kept = refl; expects_kept = refl };
      accepts = λ toggle payload packet b bs h. (follows toggle payload packet b bs h).stores;
      acknowledges = λ toggle payload packet b bs h sent ack.
          (follows toggle payload packet b bs h).acknowledged ack;
    }
