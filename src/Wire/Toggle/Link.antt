-- ===== src/Wire/Toggle/Link.antt =====
-- An IN endpoint and its host: the toggles of both sides, the packets that the device has to send and
-- those that the host has delivered.
use embassy_rp_pio_usb_host.Common.{
  ℕ, zero, suc, ◌≡◌, refl, Bool, true, false, ◌&&◌, List, [], ◌∷◌, ◌++◌, arith, leb, if◌then◌else◌,
  length, Bytes, ap, inl, inr, Bool-cases,
}
use embassy_rp_pio_usb_host.Wire.Toggle.{
  InDataDisposition, accept, duplicate, reject, classify_in_data, DataToggle, data0, data1, pid,
  after_ack,
}

pub record Link : Type 0 where
  pub expected : DataToggle
  pub delivered : List Bytes
  pub sent : DataToggle
  pub queue : List Bytes

-- A packet arrives damaged; or it arrives, and the host's answer is lost or not.
pub data Attempt : Type 0 where
  damaged answer_lost heard : Attempt

abbrev pub wire_valid : Attempt → Bool
wire_valid Attempt.damaged = false
wire_valid Attempt.answer_lost = true
wire_valid Attempt.heard = true

abbrev pub answer_arrives : Attempt → Bool
answer_arrives Attempt.damaged = false
answer_arrives Attempt.answer_lost = false
answer_arrives Attempt.heard = true

-- The host delivers what it accepts, and moves its toggle then.
abbrev pub host_takes : InDataDisposition → Bytes → Link → Link
host_takes accept p link = record link {
  expected = after_ack link.expected;
  delivered = link.delivered ++ p ∷ [];
}
host_takes duplicate p link = link
host_takes reject p link = link

-- It acknowledges what it accepts and a duplicate, and is silent otherwise.
abbrev pub acknowledges : InDataDisposition → Bool
acknowledges accept = true
acknowledges duplicate = true
acknowledges reject = false

-- A device that hears the acknowledgement moves on to the rest of its packets.
abbrev pub device_hears : Bool → List Bytes → Link → Link
device_hears true rest link = record link { sent = after_ack link.sent; queue = rest }
device_hears false rest link = link

-- What is left of the packets when the host's answers to this many undamaged attempts arrived: each
-- takes the first one away, unless it is longer than the host expects, or the host expects more than
-- its buffer holds.
abbrev pub fits : ℕ → ℕ → Bytes → Bool
fits max_len capacity p = leb max_len capacity && leb (length p) max_len

unfoldable pub served : ℕ → ℕ → ℕ → List Bytes → List Bytes
served max_len capacity n [] = []
served max_len capacity zero (p ∷ ps) = p ∷ ps
served max_len capacity (suc n) (p ∷ ps) =
    if fits max_len capacity p then served max_len capacity n ps else p ∷ ps

-- How many of the attempts are undamaged and have an answer that arrives.
abbrev pub heard_count : List Attempt → ℕ
heard_count [] = 0
heard_count (Attempt.damaged ∷ attempts) = heard_count attempts
heard_count (Attempt.answer_lost ∷ attempts) = heard_count attempts
heard_count (Attempt.heard ∷ attempts) = suc (heard_count attempts)

module _ (max_len capacity : ℕ) where
  unfoldable pub verdict : Bool → Link → Bytes → InDataDisposition
  verdict valid link p =
      classify_in_data valid (pid link.expected) max_len capacity (pid link.sent) (length p)

  unfoldable pub exchange : Attempt → Link → List Bytes → Link
  exchange a link [] = link
  exchange a link (p ∷ rest) =
      let v = verdict (wire_valid a) link p in
      device_hears (acknowledges v && answer_arrives a) rest (host_takes v p link)

  -- The device tries its packets, until it hears of each, and the host takes them.
  unfoldable pub receive_all : List Attempt → Link → Link
  receive_all [] link = link
  receive_all (a ∷ attempts) link = receive_all attempts (exchange a link link.queue)

  pub verdict-damaged : (link : Link) (p : Bytes) → verdict false link p ≡ reject
  unfolding verdict classify_in_data
  verdict-damaged link p = ground arith

  pub verdict_new :
      (t : DataToggle) (ds ps : List Bytes) (p : Bytes)
      → fits max_len capacity p ≡ true
      → verdict true (record { expected = t; delivered = ds; sent = t; queue = ps }) p ≡ accept
  unfolding verdict classify_in_data
  verdict_new data0 ds ps p h = ground arith
  verdict_new data1 ds ps p h = ground arith

  pub verdict_long :
      (t : DataToggle) (ds ps : List Bytes) (p : Bytes)
      → fits max_len capacity p ≡ false
      → verdict true (record { expected = t; delivered = ds; sent = t; queue = ps }) p ≡ reject
  unfolding verdict classify_in_data
  verdict_long data0 ds ps p h = ground arith
  verdict_long data1 ds ps p h = ground arith

  pub verdict_old :
      (t : DataToggle) (ds ps : List Bytes) (p : Bytes)
      → fits max_len capacity p ≡ true
      → verdict true (record { expected = after_ack t; delivered = ds; sent = t; queue = ps }) p
        ≡ duplicate
  unfolding verdict classify_in_data after_ack
  verdict_old data0 ds ps p h = ground arith
  verdict_old data1 ds ps p h = ground arith

pub served_long :
    (max_len capacity n : ℕ) (p : Bytes) (ps : List Bytes)
    → fits max_len capacity p ≡ false
    → served max_len capacity n (p ∷ ps) ≡ p ∷ ps
unfolding served
served_long max_len capacity zero p ps h = refl
served_long max_len capacity (suc n) p ps h = rw h refl

pub served_none : (max_len capacity : ℕ) (ps : List Bytes) → served max_len capacity 0 ps ≡ ps
unfolding served
served_none max_len capacity [] = refl
served_none max_len capacity (p ∷ ps) = refl

pub served_one :
    (max_len capacity n : ℕ) (ps : List Bytes)
    → served max_len capacity n (served max_len capacity 1 ps) ≡ served max_len capacity (suc n) ps
unfolding served
served_one max_len capacity n [] = refl
served_one max_len capacity n (p ∷ ps) = elim (Bool-cases (fits max_len capacity p)) [
  | inl f ↦ rw f (ap (served max_len capacity n) (served_none max_len capacity ps))
  | inr f ↦ rw f (served_long max_len capacity n p ps f)
]
