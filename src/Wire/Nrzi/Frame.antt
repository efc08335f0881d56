-- ===== src/Wire/Nrzi/Frame.antt =====
-- What `EncodedPacket::encode` puts into the transmit buffer, and when it fails.
use embassy_rp_pio_usb_host.Common.{
  ◌-◌, ◌*◌, ◌/◌, ◌%◌, ◌≡◌, sym, ap, ◌∙◌, subst, true, List, [], ◌∷◌, ◌++◌, map, Result, ok, err,
  ◌>>=◌, leb, if◌then◌else◌, length, Bytes, Result-cases, Bool-cases, inl, inr, arith,
  length-append, length-replicate,
}
use embassy_rp_pio_usb_host.Wire.Nrzi.{
  TxSymbol, EncodeError, encode_error, EncodedPacket, symbol_of, start, encode, encode_bytes, push,
  pad, as_bytes, symbols_of,
}
use embassy_rp_pio_usb_host.Wire.Nrzi.LineCode.{line_code, packet_bits}
use embassy_rp_pio_usb_host.Wire.Nrzi.Encoder.{
  push_all, push_all-append, encode_bytes_lem, bytes_ones, bytes_level,
}
use embassy_rp_pio_usb_host.Wire.Nrzi.Packing.{
  pack, packed, pack-empty, push_all_lem, push_all-packed, padding, pad_lem, symbols_of-pack,
}

-- The symbols of a packet: its line code and the end of packet.
abbrev pub frame : Bytes → List TxSymbol
frame raw =
    map symbol_of (line_code 0 true (packet_bits raw)) ++ (TxSymbol.se0 ∷ TxSymbol.release ∷ [])

-- The frame, padded to whole bytes.
abbrev pub padded : Bytes → List TxSymbol
padded raw = frame raw ++ padding (length (frame raw))

start_packed : start.packet ≡ packed []
unfolding start
start_packed =
    ap (λ (b : Bytes). let p : EncodedPacket = record { bytes = b; len = 0; symbols = 0 } in p)
      (sym (pack-empty 48))

-- The bytes of a packet, pushed from the start.
encode_bytes-start :
    (raw : Bytes)
    → encode_bytes raw start ≡ (
        push_all (packed []) (map symbol_of (line_code 0 true (packet_bits raw))) >>= λ q.
        ok (record {
          packet = q;
          current_state_is_j = bytes_level 0 true raw;
          consecutive_ones = bytes_ones 0 raw;
        }))
unfolding start
encode_bytes-start raw = rw (← start_packed) (encode_bytes_lem raw start.packet 0 true)

abbrev finish : EncodedPacket → Result EncodeError EncodedPacket
finish p = ok (record p { len = p.symbols / 4 })

abbrev pub ending : List TxSymbol
ending = TxSymbol.se0 ∷ TxSymbol.release ∷ []

-- The end of packet and the padding behind a packet whose code has been pushed.
push-ending :
    (code : List TxSymbol) (p : EncodedPacket)
    → push_all (packed []) code ≡ ok p
    → (push p TxSymbol.se0 >>= λ a. push a TxSymbol.release >>= λ r. pad 3 r >>= finish)
      ≡ ((push_all p ending >>= λ q. push_all q (padding (length (code ++ ending)))) >>= finish)
unfolding push_all
push-ending code p e = elim (Result-cases (push p TxSymbol.se0)) [
  | inr (w, f) ↦ rw f
  | inl (a, f) ↦ elim (Result-cases (push a TxSymbol.release)) [
    | inr (w, g) ↦ rw (f, g)
    | inl (r, g) ↦
        let all_pushed : push_all (packed []) (code ++ ending) ≡ ok r =
          push_all-append (packed []) code ending ∙ rw (e, f, g) in
        let r_is : r ≡ packed (code ++ ending) =
          push_all-packed (code ++ ending) [] (omega arith) all_pushed in
        let padded_to : pad 3 r ≡ push_all r (padding (length (code ++ ending))) =
          subst (λ (t : EncodedPacket). pad 3 t ≡ push_all t (padding (length (code ++ ending))))
            (sym r_is) (pad_lem 3 (code ++ ending) (omega arith)) in
        rw (f, g) (ap (λ (t : Result EncodeError EncodedPacket). t >>= finish) padded_to)
  ]
]

-- `encode` as one sequence of pushes.
encode_pushes : (raw : Bytes) → encode raw ≡ (push_all (packed []) (padded raw) >>= finish)
unfolding encode
encode_pushes raw =
    let code = map symbol_of (line_code 0 true (packet_bits raw)) in
    rw
      (
        encode_bytes-start raw,
        push_all-append (packed []) (code ++ ending) (padding (length (code ++ ending))),
        push_all-append (packed []) code ending,
      )
      (elim (Result-cases (push_all (packed []) code)) [
        | inl (p, e) ↦ rw e (push-ending code p e)
        | inr (w, e) ↦ rw e
      ])

-- The packet that holds the padded frame.
abbrev pub packet_of : Bytes → EncodedPacket
packet_of raw = record {
  bytes = pack 48 (padded raw);
  len = length (padded raw) / 4;
  symbols = length (padded raw);
}

-- `encode` succeeds exactly when the packet's symbols, padding included, fit the 192 symbols of the
-- buffer; the packet then holds these symbols, packed, and nothing else.
pub encode_lem :
    (raw : Bytes)
    → encode raw ≡ (if leb (length (padded raw)) 192 then ok (packet_of raw) else err encode_error)
encode_lem raw =
    encode_pushes raw
    ∙ rw (push_all_lem (padded raw) [] (omega arith))
        (elim (Bool-cases (leb (length (padded raw)) 192)) [ inl e ↦ rw e | inr e ↦ rw e ])

length-padded : (raw : Bytes) → length (padded raw) ≡ length (padded raw) / 4 * 4
length-padded raw = omega (
  arith,
  length-append (frame raw) (padding (length (frame raw))),
  length-replicate ((4 - length (frame raw) % 4) % 4) TxSymbol.k,
)

-- The symbols that the PIO reads from an encoded packet are the packet's frame, padded.
pub symbols_of-encode :
    (raw : Bytes) (p : EncodedPacket) → encode raw ≡ ok p → symbols_of (as_bytes p) ≡ padded raw
unfolding as_bytes
symbols_of-encode raw p e =
    let both = sym (encode_lem raw) ∙ e in
    elim (Bool-cases (leb (length (padded raw)) 192)) [
      | inl room ↦
          let same : ok (packet_of raw) ≡ ok p = rw room at both in
          let len_is : p.len ≡ length (padded raw) / 4 = cc in
          let bytes_are : p.bytes ≡ pack 48 (padded raw) = cc in
          rw (len_is, bytes_are)
            (symbols_of-pack (length (padded raw) / 4) 48 (padded raw) (ground arith)
              (length-padded raw))
      | inr full ↦ cc (rw full at both)
    ]
