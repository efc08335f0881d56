-- ===== src/Host/Engine/Out.antt =====
-- An OUT transaction with a device that follows the USB rules for data toggles settles its packet.
use embassy_rp_pio_usb_host.Common.{
  ◌≡◌, ◌≢◌, Bool, true, false, not, ◌||◌, List, [], ◌∷◌, ◌++◌, Result, ok, err, refl, sym, ap, ◌∙◌,
  ◌⊎◌, inl, inr, Bytes, IsBytes, ◌==◌, ==_iff, Bool-cases, if_both, arith,
}
use embassy_rp_pio_usb_host.Wire.Pid.{pid_out, pid_ack}
use embassy_rp_pio_usb_host.Wire.Packet.{
  RawDataPacket, DataPacketError, new, as_bytes, token_packet,
}
use embassy_rp_pio_usb_host.Wire.Toggle.{DataToggle, pid, after_ack}
use embassy_rp_pio_usb_host.Host.Types.{PipeError}
use embassy_rp_pio_usb_host.Host.Pipe.{Answer}
use embassy_rp_pio_usb_host.Host.Pipe.Transfer.{Endpoint, IsAt, IsPending, IsSettled}
use embassy_rp_pio_usb_host.Host.Engine.{
  ReceiveResult, OutResponse, PipeTarget, Wire, out_response, receive_response, send_pair,
  send_packet, send_data, out_once, settle, is_out_type, is_out, request_out_once,
}

after_ack_ne : (toggle : DataToggle) → after_ack toggle ≢ toggle
unfolding after_ack
after_ack_ne DataToggle.data0 = λ e. cc
after_ack_ne DataToggle.data1 = λ e. cc

out_response-ack :
    (received : ReceiveResult)
    → out_response received ≡ ok OutResponse.ack
    → received ≡ ReceiveResult.handshake pid_ack
unfolding out_response
out_response-ack (ReceiveResult.handshake response) h = elim (Bool-cases (response == pid_ack)) [
  | inl e ↦ ap ReceiveResult.handshake ((==_iff response pid_ack).0 e)
  | inr e ↦ absurd (ground arith)
]
out_response-ack ReceiveResult.no_start h = cc
out_response-ack ReceiveResult.invalid_packet h = cc

module _ {κ} {S : Type κ} (device : Endpoint S) where
  -- Between two worlds the device has neither accepted a packet nor moved its toggle.
  pub record IsKept (world later : S) : Type 0 where
    pub received_kept : device.received later ≡ device.received world
    pub expects_kept : device.expects later ≡ device.expects world

  -- The rules of USB 2.0, section 8.6, for an OUT endpoint: it accepts a data packet only with the
  -- toggle that it expects, which moves its toggle; and it acknowledges a packet that it accepted, or
  -- one with the other toggle, which it has accepted before.
  pub record IsUsbOut (wire : Wire S) (target : PipeTarget) : Type κ where
    pub start_frame_keeps : (world : S) → IsKept world (wire.start_frame world).1
    pub park_receive_keeps : (world : S) → IsKept world (wire.park_receive world).1
    pub receive_handshake_keeps : (world : S) → IsKept world (wire.receive_handshake world).1
    pub accepts :
        (toggle : DataToggle) (payload : Bytes) (packet : RawDataPacket) (world : S)
        → IsBytes payload
        → new (pid toggle) payload ≡ ok packet
        → let token = token_packet pid_out target.device_address target.endpoint.index in
          let later = (wire.transmit_token_data_pair token (as_bytes packet) world).1 in
          IsKept world later
          ⊎ ((device.expects world ≡ toggle)
              × (device.expects later ≡ after_ack toggle)
              × (device.received later ≡ device.received world ++ (payload ∷ [])))
    pub acknowledges :
        (toggle : DataToggle) (payload : Bytes) (packet : RawDataPacket) (world : S)
        → IsBytes payload
        → new (pid toggle) payload ≡ ok packet
        → let token = token_packet pid_out target.device_address target.endpoint.index in
          let sent = wire.transmit_token_data_pair token (as_bytes packet) world in
          sent.0 ≡ true
          → (wire.receive_handshake sent.1).0 ≡ ReceiveResult.handshake pid_ack
          → device.expects sent.1 ≡ after_ack toggle

  pub kept-IsAt :
      {world later : S} (toggle : DataToggle) (packets : List Bytes)
      → IsKept world later
      → IsAt device toggle packets world
      → IsAt device toggle packets later
  kept-IsAt toggle packets k at = record {
    has = k.received_kept ∙ at.has;
    wants = k.expects_kept ∙ at.wants;
  }

  kept-IsPending :
      (toggle : DataToggle) (packets : List Bytes) (packet : Bytes) {world later : S}
      → IsKept world later
      → IsPending device toggle packets packet world
      → IsPending device toggle packets packet later
  unfolding IsPending
  kept-IsPending toggle packets packet k (inl at) = inl (kept-IsAt toggle packets k at)
  kept-IsPending toggle packets packet k (inr at) =
      inr (kept-IsAt (after_ack toggle) (packets ++ (packet ∷ [])) k at)

  -- A packet on its way, at a device that expects the next toggle, has been accepted.
  accepted-IsAt :
      (toggle : DataToggle) (packets : List Bytes) (packet : Bytes) (world : S)
      → IsPending device toggle packets packet world
      → device.expects world ≡ after_ack toggle
      → IsAt device (after_ack toggle) (packets ++ (packet ∷ [])) world
  unfolding IsPending
  accepted-IsAt toggle packets packet world (inl at) e =
      absurd (after_ack_ne toggle (sym e ∙ at.wants))
  accepted-IsAt toggle packets packet world (inr at) e = at

  module _ (wire : Wire S) (toggle : DataToggle) (packets : List Bytes) (packet : Bytes) where
    Settles : Answer (Unit {0}) S → Type κ
    Settles answer = IsSettled device toggle packets packet answer

    settle-IsSettled :
        (r : Result PipeError OutResponse) (world : S)
        → IsPending device toggle packets packet world
        → (r ≡ ok OutResponse.ack → IsAt device (after_ack toggle) (packets ++ (packet ∷ [])) world)
        → Settles (settle wire toggle (r, world))
    unfolding settle Settles
    settle-IsSettled (err e) world p h = IsSettled.undelivered (λ q. cc) refl p
    settle-IsSettled (ok OutResponse.ack) world p h = IsSettled.delivered refl refl (h refl)
    settle-IsSettled (ok OutResponse.nak) world p h = IsSettled.undelivered (λ q. cc) refl p
    settle-IsSettled (ok OutResponse.no_response) world p h = IsSettled.undelivered (λ q. cc) refl p

    receive-IsSettled :
        (sent : Bool × S)
        → ((world : S) → IsKept world (wire.receive_handshake world).1)
        → IsPending device toggle packets packet sent.1
        → (sent.0 ≡ true
            → (wire.receive_handshake sent.1).0 ≡ ReceiveResult.handshake pid_ack
            → device.expects sent.1 ≡ after_ack toggle)
        → Settles (settle wire toggle (receive_response wire sent))
    unfolding receive_response
    receive-IsSettled (false, world) keeps p h =
        settle-IsSettled (err PipeError.timeout) world p (λ q. cc)
    receive-IsSettled (true, world) keeps p h =
        let received = wire.receive_handshake world in
        settle-IsSettled (out_response received.0) received.1
          (kept-IsPending toggle packets packet (keeps world) p)
          (λ q.
            kept-IsAt (after_ack toggle) (packets ++ (packet ∷ [])) (keeps world) (
              accepted-IsAt toggle packets packet world p (h refl (out_response-ack received.0 q))))

    module _ (target : PipeTarget) (usb : IsUsbOut wire target) (bytes : IsBytes packet) where
      abbrev token : Bytes
      token = token_packet pid_out target.device_address target.endpoint.index

      -- A packet that the device accepts now was not accepted before.
      accepted-IsPending :
          {world later : S}
          → device.expects world ≡ toggle
          → device.expects later ≡ after_ack toggle
          → device.received later ≡ device.received world ++ (packet ∷ [])
          → IsPending device toggle packets packet world
          → IsPending device toggle packets packet later
      unfolding IsPending
      accepted-IsPending expected moved received (inl at) =
          inr (record { has = received ∙ ap (λ r. r ++ (packet ∷ [])) at.has; wants = moved })
      accepted-IsPending expected moved received (inr at) =
          absurd (after_ack_ne toggle (sym at.wants ∙ expected))

      -- The transmission leaves the packet on its way.
      sent-IsPending :
          (raw : RawDataPacket) (world : S)
          → new (pid toggle) packet ≡ ok raw
          → IsPending device toggle packets packet world
          → IsPending device toggle packets packet
              (wire.transmit_token_data_pair token (as_bytes raw) world).1
      unfolding IsPending
      sent-IsPending raw world e p = elim (usb.accepts toggle packet raw world bytes e) [
        | inl k ↦ kept-IsPending toggle packets packet k p
        | inr (expected, moved, received) ↦ accepted-IsPending expected moved received p
      ]

      send_pair-IsSettled :
          (raw : RawDataPacket) (parked : Result PipeError (Unit {0}) × S)
          → new (pid toggle) packet ≡ ok raw
          → IsPending device toggle packets packet parked.1
          → Settles (settle wire toggle (send_pair wire token (as_bytes raw) parked))
      unfolding send_pair
      send_pair-IsSettled raw (err e, world) h p = settle-IsSettled (err e) world p (λ q. cc)
      send_pair-IsSettled raw (ok _, world) h p =
          receive-IsSettled (wire.transmit_token_data_pair token (as_bytes raw) world)
            usb.receive_handshake_keeps (sent-IsPending raw world h p)
            (usb.acknowledges toggle packet raw world bytes h)

      send_packet-IsSettled :
          (built : Result DataPacketError RawDataPacket) (world : S)
          → new (pid toggle) packet ≡ built
          → IsPending device toggle packets packet world
          → Settles (settle wire toggle (send_packet wire token built world))
      unfolding send_packet
      send_packet-IsSettled (err e) world h p =
          settle-IsSettled (err PipeError.buffer_overflow) world p (λ q. cc)
      send_packet-IsSettled (ok raw) world h p =
          send_pair-IsSettled raw (wire.park_receive world) h
            (kept-IsPending toggle packets packet (usb.park_receive_keeps world) p)

      send_data-IsSettled :
          (started : Result PipeError (Unit {0}) × S)
          → IsPending device toggle packets packet started.1
          → Settles (settle wire toggle (send_data wire target pid_out (pid toggle) packet started))
      unfolding send_data
      send_data-IsSettled (err e, world) p = settle-IsSettled (err e) world p (λ q. cc)
      send_data-IsSettled (ok _, world) p =
          send_packet-IsSettled (new (pid toggle) packet) world refl p

      pub request_out_once-IsSettled :
          (world : S)
          → IsPending device toggle packets packet world
          → IsSettled device toggle packets packet
              (request_out_once wire target packet toggle world)
      unfolding request_out_once out_once Settles
      request_out_once-IsSettled world p =
          if_both Settles
            (not (is_out_type wire target.endpoint.ep_type)
              || not (is_out wire target.endpoint.direction))
            (IsSettled.undelivered (λ q. cc) refl p)
            (send_data-IsSettled (wire.start_frame world)
              (kept-IsPending toggle packets packet (usb.start_frame_keeps world) p))
