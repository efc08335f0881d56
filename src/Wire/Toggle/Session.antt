-- ===== src/Wire/Toggle/Session.antt =====
-- An IN endpoint that retransmits: acceptance by data toggle delivers every packet exactly once.
use mathlib.Core.List.{append_assoc}
use embassy_rp_pio_usb_host.Wire.Pid.{pid_data0, pid_data1}
use embassy_rp_pio_usb_host.Common.{
  ℕ, suc, ◌%◌, ◌≤◌, ◌≡◌, ◌⊎◌, inl, inr, refl, sym, ap, subst, ◌∙◌, true, ◌&&◌, List, [], ◌∷◌, ◌++◌,
  arith, ◌==◌, if◌then◌else◌, length, All, Bytes, Bool-cases,
}
use embassy_rp_pio_usb_host.Wire.Toggle.{
  InDataDisposition, accept, duplicate, reject, DataToggle, data0, data1, pid, after_ack,
  CdcAcmDataState, new, bulk_in_pid, bulk_out_pid, after_bulk_in_ack, after_bulk_out_ack,
}
use embassy_rp_pio_usb_host.Wire.Toggle.Link.{
  Link, Attempt, wire_valid, answer_arrives, host_takes, acknowledges, device_hears, fits, served,
  heard_count, verdict, exchange, receive_all, verdict-damaged, verdict_new, verdict_long,
  verdict_old, served_long, served_none, served_one,
}

-- Both sides at the start, with the packets that the device is to send.
abbrev pub fresh_link : DataToggle → List Bytes → Link
fresh_link t packets = record { expected = t; delivered = []; sent = t; queue = packets }

-- The two sides agree, or the host has the first packet and the device does not know it yet.
data Follows (max_len capacity : ℕ) (packets : List Bytes) : Link → Type 0 where
  together :
      (t : DataToggle) (ds rest : List Bytes)
      → ds ++ rest ≡ packets
      → All (λ d. length d ≤ capacity) ds
      → Follows max_len capacity packets
          (record { expected = t; delivered = ds; sent = t; queue = rest })
  ahead :
      (t : DataToggle) (ds rest : List Bytes) (p : Bytes)
      → ds ++ rest ≡ packets
      → All (λ d. length d ≤ capacity) ds
      → fits max_len capacity p ≡ true
      → Follows max_len capacity packets
          (record { expected = after_ack t; delivered = ds; sent = t; queue = p ∷ rest })

-- What one attempt takes from the queue.
abbrev heard_one : Attempt → ℕ
heard_one Attempt.damaged = 0
heard_one Attempt.answer_lost = 0
heard_one Attempt.heard = 1

All-snoc :
    (capacity : ℕ) (ds : List Bytes) (p : Bytes)
    → All (λ (d : Bytes). length d ≤ capacity) ds
    → length p ≤ capacity
    → All (λ (d : Bytes). length d ≤ capacity) (ds ++ p ∷ [])
All-snoc capacity [] p h n = (n, tt)
All-snoc capacity (d ∷ ds) p (m, h) n = (m, All-snoc capacity ds p h n)

module _ (max_len capacity : ℕ) (packets : List Bytes) where
  -- What an attempt does: it keeps the two sides together, and takes the packet that it should.
  abbrev Advances : Attempt → Link → Link → Type 0
  Advances a before after =
      Follows max_len capacity packets after
      × (after.queue ≡ served max_len capacity (heard_one a) before.queue)

  abbrev answered : Attempt → Link → Bytes → List Bytes → InDataDisposition → Link
  answered a link p rest v =
      device_hears (acknowledges v && answer_arrives a) rest (host_takes v p link)

  exchange_by :
      (a : Attempt) (link : Link) (p : Bytes) (rest : List Bytes) (v : InDataDisposition)
      → verdict max_len capacity (wire_valid a) link p ≡ v
      → Advances a link (answered a link p rest v)
      → Advances a link (exchange max_len capacity a link (p ∷ rest))
  unfolding exchange
  exchange_by a link p rest v e h =
      subst (λ w. Advances a link (answered a link p rest w)) (sym e) h

  together-Advances :
      (a : Attempt) (t : DataToggle) (ds rest : List Bytes) (p : Bytes)
      → ds ++ p ∷ rest ≡ packets
      → All (λ (d : Bytes). length d ≤ capacity) ds
      → let link : Link = record { expected = t; delivered = ds; sent = t; queue = p ∷ rest } in
        Advances a link (exchange max_len capacity a link (p ∷ rest))
  unfolding served
  together-Advances Attempt.damaged t ds rest p e h =
      exchange_by Attempt.damaged _ p rest reject (verdict-damaged max_len capacity _ p)
        (Follows.together t ds (p ∷ rest) e h, refl)
  together-Advances Attempt.answer_lost t ds rest p e h =
      elim (Bool-cases (fits max_len capacity p)) [
        | inl f ↦
            let within : length p ≤ capacity = ground arith in
            exchange_by Attempt.answer_lost _ p rest accept
              (verdict_new max_len capacity t ds _ p f)
              (
                Follows.ahead t (ds ++ p ∷ []) rest p (append_assoc ds (p ∷ []) rest ∙ e)
                    (All-snoc capacity ds p h within) f,
                refl,
              )
        | inr f ↦
            exchange_by Attempt.answer_lost _ p rest reject
              (verdict_long max_len capacity t ds _ p f)
              (Follows.together t ds (p ∷ rest) e h, refl)
      ]
  together-Advances Attempt.heard t ds rest p e h = elim (Bool-cases (fits max_len capacity p)) [
    | inl f ↦
        let within : length p ≤ capacity = ground arith in
        exchange_by Attempt.heard _ p rest accept (verdict_new max_len capacity t ds _ p f) (
          Follows.together (after_ack t) (ds ++ p ∷ []) rest (append_assoc ds (p ∷ []) rest ∙ e)
              (All-snoc capacity ds p h within),
          rw f (sym (served_none max_len capacity rest)),
        )
    | inr f ↦
        exchange_by Attempt.heard _ p rest reject (verdict_long max_len capacity t ds _ p f)
          (Follows.together t ds (p ∷ rest) e h, sym (served_long max_len capacity 1 p rest f))
  ]

  ahead-Advances :
      (a : Attempt) (t : DataToggle) (ds rest : List Bytes) (p : Bytes)
      → ds ++ rest ≡ packets
      → All (λ (d : Bytes). length d ≤ capacity) ds
      → fits max_len capacity p ≡ true
      → let link : Link = record {
        expected = after_ack t;
        delivered = ds;
        sent = t;
        queue = p ∷ rest;
      } in
        Advances a link (exchange max_len capacity a link (p ∷ rest))
  unfolding served
  ahead-Advances Attempt.damaged t ds rest p e h f =
      exchange_by Attempt.damaged _ p rest reject (verdict-damaged max_len capacity _ p)
        (Follows.ahead t ds rest p e h f, refl)
  ahead-Advances Attempt.answer_lost t ds rest p e h f =
      exchange_by Attempt.answer_lost _ p rest duplicate (verdict_old max_len capacity t ds _ p f)
        (Follows.ahead t ds rest p e h f, refl)
  ahead-Advances Attempt.heard t ds rest p e h f =
      exchange_by Attempt.heard _ p rest duplicate (verdict_old max_len capacity t ds _ p f)
        (Follows.together (after_ack t) ds rest e h, rw f (sym (served_none max_len capacity rest)))

  exchange-Advances :
      (a : Attempt) {link : Link}
      → Follows max_len capacity packets link
      → Advances a link (exchange max_len capacity a link link.queue)
  unfolding exchange served
  exchange-Advances a (Follows.together t ds [] e h) = (Follows.together t ds [] e h, refl)
  exchange-Advances a (Follows.together t ds (p ∷ rest) e h) = together-Advances a t ds rest p e h
  exchange-Advances a (Follows.ahead t ds rest p e h f) = ahead-Advances a t ds rest p e h f

  heard_more :
      (a : Attempt) (attempts : List Attempt) (queue : List Bytes)
      → served max_len capacity (heard_count attempts) (served max_len capacity (heard_one a) queue)
        ≡ served max_len capacity (heard_count (a ∷ attempts)) queue
  heard_more Attempt.damaged attempts queue =
      ap (served max_len capacity (heard_count attempts)) (served_none max_len capacity queue)
  heard_more Attempt.answer_lost attempts queue =
      ap (served max_len capacity (heard_count attempts)) (served_none max_len capacity queue)
  heard_more Attempt.heard attempts queue = served_one max_len capacity (heard_count attempts) queue

  receive_all-Advances :
      (attempts : List Attempt) (link : Link)
      → Follows max_len capacity packets link
      → Follows max_len capacity packets (receive_all max_len capacity attempts link)
        × ((receive_all max_len capacity attempts link).queue
            ≡ served max_len capacity (heard_count attempts) link.queue)
  unfolding receive_all
  receive_all-Advances [] link f = (f, sym (served_none max_len capacity link.queue))
  receive_all-Advances (a ∷ attempts) link f =
      let next = exchange max_len capacity a link link.queue in
      let (g, q) = exchange-Advances a f in
      let (l, r) = receive_all-Advances attempts next g in
      (
        l,
        r
            ∙ ap (served max_len capacity (heard_count attempts)) q
            ∙ heard_more a attempts link.queue,
      )

  -- What was delivered, and what was not, of the packets.
  IsDelivered : Link → Type 0
  IsDelivered link =
      (left : List Bytes) × (link.delivered ++ left ≡ packets)
      × ((link.queue ≡ left) ⊎ ((p : Bytes) × (link.queue ≡ p ∷ left)))
      × All (λ (d : Bytes). length d ≤ capacity) link.delivered

  Follows-IsDelivered : {link : Link} → Follows max_len capacity packets link → IsDelivered link
  unfolding IsDelivered
  Follows-IsDelivered (Follows.together t ds rest e h) = (rest, e, inl refl, h)
  Follows-IsDelivered (Follows.ahead t ds rest p e h f) = (rest, e, inr (p, refl), h)

-- A host that accepts by `classify_in_data`, moves its toggle by `after_ack` for what it accepts and
-- acknowledges all that it does not reject, and a device that sends its first packet again until it
-- hears of it, start with the same toggle; the host expects packets of `max_len` bytes at most,
-- throughout. After any attempts, of which some are damaged and of some
-- the host's answer is lost, the device has moved on by one packet for each attempt that was heard,
-- up to the first packet that is longer than the host expects (or none, if the host expects more
-- than its buffer holds). What the host has delivered is a prefix of the packets, each once and in
-- order: all that the device has done with, and at most one more, whose answer was lost. Each
-- delivered packet fits the receive buffer.
pub receive_all_once :
    (max_len capacity : ℕ) (attempts : List Attempt) (t : DataToggle) (packets : List Bytes)
    → let link = receive_all max_len capacity attempts (fresh_link t packets) in
      (link.queue ≡ served max_len capacity (heard_count attempts) packets)
      × (left : List Bytes) × (link.delivered ++ left ≡ packets)
      × ((link.queue ≡ left) ⊎ ((p : Bytes) × (link.queue ≡ p ∷ left)))
      × All (λ (d : Bytes). length d ≤ capacity) link.delivered
unfolding IsDelivered
receive_all_once max_len capacity attempts t packets =
    let (f, q) =
      receive_all-Advances max_len capacity packets attempts (fresh_link t packets)
        (Follows.together t [] packets refl tt) in
    let (left, e, rest, h) = Follows-IsDelivered max_len capacity packets f in (q, left, e, rest, h)

-- One acknowledged bulk transaction of a CDC-ACM session.
pub data Direction : Type 0 where
  outward inward : Direction

pub acknowledge : CdcAcmDataState → Direction → CdcAcmDataState
acknowledge s outward = after_bulk_out_ack s
acknowledge s inward = after_bulk_in_ack s

-- A session, its latest transaction first.
pub session : List Direction → CdcAcmDataState
session [] = new
session (d ∷ earlier) = acknowledge (session earlier) d

abbrev pub inwards : List Direction → ℕ
inwards [] = 0
inwards (inward ∷ ds) = suc (inwards ds)
inwards (outward ∷ ds) = inwards ds

abbrev pub outwards : List Direction → ℕ
outwards [] = 0
outwards (inward ∷ ds) = outwards ds
outwards (outward ∷ ds) = suc (outwards ds)

abbrev pub parity_pid : ℕ → ℕ
parity_pid n = if n % 2 == 0 then pid_data0 else pid_data1

pid-after_ack :
    (t : DataToggle) (n : ℕ) → pid t ≡ parity_pid n → pid (after_ack t) ≡ parity_pid (suc n)
unfolding after_ack
pid-after_ack data0 n h = ground arith
pid-after_ack data1 n h = ground arith

-- The two directions of a session keep independent sequences: each uses DATA0 after an even number
-- of its own acknowledged transactions and DATA1 after an odd number, whatever the other did.
pub session_pids :
    (ds : List Direction)
    → (bulk_in_pid (session ds) ≡ parity_pid (inwards ds))
      × (bulk_out_pid (session ds) ≡ parity_pid (outwards ds))
unfolding session acknowledge bulk_in_pid bulk_out_pid after_bulk_in_ack after_bulk_out_ack new
session_pids [] = (refl, refl)
session_pids (outward ∷ ds) = let (i, o) = session_pids ds in (i, pid-after_ack _ (outwards ds) o)
session_pids (inward ∷ ds) = let (i, o) = session_pids ds in (pid-after_ack _ (inwards ds) i, o)
