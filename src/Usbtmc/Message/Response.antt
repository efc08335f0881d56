-- ===== src/Usbtmc/Message/Response.antt =====
-- What `read_response` returns, against the bytes that the device sent.
use Prim.Native.Nat.{min}
use mathlib.Core.List.{append_assoc}
use embassy_rp_pio_usb_host.Common.{
  ℕ, ◌+◌, ◌-◌, ◌≡◌, ◌≤◌, not, ◌||◌, List, [], ◌∷◌, ◌++◌, Result, ok, err, ltb, ◌==◌, length, take,
  drop, Bytes, byte_at, refl, sym, ap, subst, ◌∙◌, arith, Bool-cases, Result-cases, inl, inr,
  length-append, take-append, if_both,
}
use embassy_rp_pio_usb_host.Common.Slices.{
  length-take, length-drop, take_past, take_within, take-take, take_ge,
}
use embassy_rp_pio_usb_host.Host.Types.{PipeError}
use embassy_rp_pio_usb_host.Usbtmc.Message.{
  UsbtmcError, complement, padded, u32_at, ReadResult, read_end, read_finish, read_more,
  check_first, read_payload, read_response,
}

-- The bytes that the pipe brought.
pub wire_bytes : List (Result PipeError Bytes) → Bytes
wire_bytes [] = []
wire_bytes (err e ∷ packets) = wire_bytes packets
wire_bytes (ok received ∷ packets) = received ++ wire_bytes packets

-- What holds of the bytes that a read returns, when it returns some.
abbrev Returns {ℓ} : (Bytes → Type ℓ) → ReadResult → Type ℓ
Returns P ReadResult.waiting = Unit
Returns P (ReadResult.done (err e)) = Unit
Returns P (ReadResult.done (ok out)) = P out

-- The bytes wanted, as many as announced.
IsFirst : ℕ → Bytes → Bytes → Type 0
IsFirst announced wanted out = (out ≡ wanted) × (length out ≡ announced)

read_end-Returns :
    (P : Bytes → Type 0) (packets : List (Result PipeError Bytes)) (copied : Bytes)
    → P copied
    → Returns P (read_end packets copied)
unfolding read_end
read_end-Returns P [] copied h = tt
read_end-Returns P (err e ∷ packets) copied h = tt
read_end-Returns P (ok received ∷ packets) copied h =
    if_both (λ (r : Result UsbtmcError Bytes). Returns P (ReadResult.done r))
      (not (length received == 0)) tt h

read_finish-Returns :
    (P : Bytes → Type 0) (packet_size announced : ℕ) (packets : List (Result PipeError Bytes))
    (copied : Bytes) (wire last : ℕ)
    → P copied
    → Returns P (read_finish packet_size announced packets copied wire last)
unfolding read_finish
read_finish-Returns P packet_size announced packets copied wire last h =
    if_both (Returns P) (ltb wire (12 + announced)) tt
      (if_both (Returns P) (last == packet_size) (read_end-Returns P packets copied h) h)

-- What is missing comes from the received bytes first.
take_count :
    (received rest : Bytes) (missing : ℕ)
    → take missing (take (min (length received) missing) received ++ rest)
      ≡ take missing (received ++ rest)
take_count received rest missing = elim (Bool-cases (ltb (length received) missing)) [
  | inl e ↦
      let all : min (length received) missing ≡ length received = ground arith in
      rw all (rw (take_ge (length received) received (omega arith)) refl)
  | inr e ↦
      let part : min (length received) missing ≡ missing = ground arith in
      rw part (
        take_within missing (take missing received) rest
          (omega (arith, length-take missing received (ground arith)))
        ∙ take-take missing received
        ∙ sym (take_within missing received rest (ground arith)))
]

-- One more packet brings the copied bytes nearer to the announced ones.
take_step :
    (copied received rest : Bytes) (announced : ℕ)
    → length copied ≤ announced
    → take announced
        ((copied ++ take (min (length received) (announced - length copied)) received) ++ rest)
      ≡ take announced (copied ++ (received ++ rest))
take_step copied received rest announced h =
    let missing : ℕ = announced - length copied in
    let count : ℕ = min (length received) missing in
    let split : announced ≡ length copied + missing = omega arith in
    ap (λ (l : Bytes). take announced l) (append_assoc copied (take count received) rest)
    ∙ ap (λ (k : ℕ). take k (copied ++ (take count received ++ rest))) split
    ∙ take_past copied (take count received ++ rest) missing
    ∙ ap (λ (l : Bytes). copied ++ l) (take_count received rest missing)
    ∙ sym (take_past copied (received ++ rest) missing)
    ∙ ap (λ (k : ℕ). take k (copied ++ (received ++ rest))) (sym split)

full-IsFirst :
    (announced : ℕ) (copied rest : Bytes)
    → length copied ≡ announced
    → IsFirst announced (take announced (copied ++ rest)) copied
unfolding IsFirst
full-IsFirst announced copied rest h =
    (sym (ap (λ (k : ℕ). take k (copied ++ rest)) (sym h) ∙ take-append copied rest), h)

read_more-IsFirst :
    (packet_size announced : ℕ) (packets : List (Result PipeError Bytes)) (copied : Bytes)
    (wire last : ℕ)
    → length copied ≤ announced
    → Returns
        (IsFirst announced (take announced (copied ++ wire_bytes packets)))
        (read_more packet_size announced packets copied wire last)
unfolding read_more wire_bytes
read_more-IsFirst packet_size announced [] copied wire last h =
    elim (Bool-cases (ltb (length copied) announced)) [
      | inl e ↦ rw e tt
      | inr e ↦ rw e (
          read_finish-Returns (IsFirst announced (take announced (copied ++ []))) packet_size
            announced [] copied wire last (full-IsFirst announced copied [] (ground arith)))
    ]
read_more-IsFirst packet_size announced (err error ∷ packets) copied wire last h =
    elim (Bool-cases (ltb (length copied) announced)) [
      | inl e ↦ rw e tt
      | inr e ↦ rw e (
          read_finish-Returns (IsFirst announced (take announced (copied ++ wire_bytes packets)))
            packet_size announced (err error ∷ packets) copied wire last
            (full-IsFirst announced copied (wire_bytes packets) (ground arith)))
    ]
read_more-IsFirst packet_size announced (ok received ∷ packets) copied wire last h =
    let n = length received in
    let count : ℕ = min n (announced - length copied) in
    let rest = wire_bytes packets in
    let later : length (copied ++ take count received) ≤ announced = omega (
      arith,
      length-append copied (take count received),
      length-take count received (omega arith),
    ) in
    let next =
      read_more-IsFirst packet_size announced packets (copied ++ take count received) (wire + n) n
        later in
    elim (Bool-cases (ltb (length copied) announced)) [
      | inl e ↦ rw e (
          if_both (Returns (IsFirst announced (take announced (copied ++ (received ++ rest)))))
            (n == 0 || ltb (12 + padded announced) (wire + n)) tt
            (subst
              (λ (wanted : Bytes). Returns (IsFirst announced wanted) (
                read_more packet_size announced packets (copied ++ take count received) (wire + n)
                  n))
              (take_step copied received rest announced h) next))
      | inr e ↦ rw e (
          read_finish-Returns (IsFirst announced (take announced (copied ++ (received ++ rest))))
            packet_size announced (ok received ∷ packets) copied wire last
            (full-IsFirst announced copied (received ++ rest) (ground arith)))
    ]

check_first_lem :
    (tag capacity : ℕ) (packet : Bytes) (u : Unit {0})
    → check_first tag capacity packet ≡ ok u
    → (12 ≤ length packet)
      × (byte_at packet 0 ≡ 2)
      × (byte_at packet 1 ≡ tag)
      × (byte_at packet 2 ≡ complement tag)
      × (u32_at packet 4 ≤ capacity)
unfolding check_first
check_first_lem tag capacity packet u h = ground arith

-- The payload of the first packet and of those that follow.
first_wanted :
    (announced : ℕ) (packet rest : Bytes)
    → take announced (take (min (length packet - 12) announced) (drop 12 packet) ++ rest)
      ≡ take announced (drop 12 packet ++ rest)
first_wanted announced packet rest =
    ap (λ (n : ℕ). take announced (take (min n announced) (drop 12 packet) ++ rest))
      (sym (length-drop 12 packet))
    ∙ take_count (drop 12 packet) rest announced

read_payload-IsFirst :
    (packet_size : ℕ) (packet : Bytes) (packets : List (Result PipeError Bytes)) (u : Unit {0})
    → Returns
        (IsFirst (u32_at packet 4) (take (u32_at packet 4) (drop 12 packet ++ wire_bytes packets)))
        (read_payload packet_size (ok u) packet packets)
unfolding read_payload
read_payload-IsFirst packet_size packet packets u =
    let announced = u32_at packet 4 in
    let copied = take (min (length packet - 12) announced) (drop 12 packet) in
    let fits : length copied ≤ announced = omega (
      arith,
      length-drop 12 packet,
      length-take (min (length packet - 12) announced) (drop 12 packet)
          (omega (arith, length-drop 12 packet)),
    ) in
    subst
      (λ (wanted : Bytes).
        Returns (IsFirst announced wanted) (read_payload packet_size (ok u) packet packets))
      (first_wanted announced packet (wire_bytes packets))
      (read_more-IsFirst packet_size announced packets copied (length packet) (length packet) fits)

Returns-elim :
    (P : Bytes → Type 0) {r : ReadResult} {out : Bytes}
    → r ≡ ReadResult.done (ok out)
    → Returns P r
    → P out
Returns-elim P e h = subst (Returns P) e h

-- When a read of a response returns bytes, the first packet is a message for the host with the tag of
-- the request, also in its complement; they are as many as it announces and fit the response's
-- buffer; and they are the first bytes behind its header, over all packets that the device sent: no
-- byte of the message is lost, repeated or reordered, and no header or padding is taken for one.
pub read_response-payload :
    (packet_size tag capacity : ℕ) (packet : Bytes) (packets : List (Result PipeError Bytes))
    (out : Bytes)
    → read_response packet_size tag capacity (ok packet ∷ packets) ≡ ReadResult.done (ok out)
    → (byte_at packet 0 ≡ 2)
      × (byte_at packet 1 ≡ tag)
      × (byte_at packet 2 ≡ complement tag)
      × (length out ≡ u32_at packet 4)
      × (length out ≤ capacity)
      × (out ≡ take (length out) (drop 12 packet ++ wire_bytes packets))
unfolding read_response read_payload IsFirst
read_response-payload packet_size tag capacity packet packets out h =
    elim (Result-cases (check_first tag capacity packet)) [
      | inl (u, e) ↦
          let (long, kind, tagged, complemented, fits) = check_first_lem tag capacity packet u e in
          let announced = u32_at packet 4 in
          let same : read_payload packet_size (ok u) packet packets ≡ ReadResult.done (ok out) =
            ap (λ c. read_payload packet_size c packet packets) (sym e) ∙ h in
          let (first, n) =
            Returns-elim (IsFirst announced (take announced (drop 12 packet ++ wire_bytes packets)))
              same (read_payload-IsFirst packet_size packet packets u) in
          (
            kind,
            tagged,
            complemented,
            n,
            omega arith,
            first ∙ ap (λ (k : ℕ). take k (drop 12 packet ++ wire_bytes packets)) (sym n),
          )
      | inr (error, e) ↦
          let same : read_payload packet_size (err error) packet packets
              ≡ ReadResult.done (ok out) =
            ap (λ c. read_payload packet_size c packet packets) (sym e) ∙ h in
          absurd (Returns-elim (λ _. ⊥) same tt)
    ]
