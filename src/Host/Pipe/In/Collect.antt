-- ===== src/Host/Pipe/In/Collect.antt =====
-- What an IN transfer returns, against the packets that its transactions accepted.
use mathlib.Core.List.{append-nil, append_assoc}
use embassy_rp_pio_usb_host.Common.{
  ℕ, suc, ◌-◌, ◌+◌, ◌≤◌, ◌≡◌, ◌↔◌, ◌≢◌, true, false, inl, inr, List, [], ◌∷◌, ◌++◌, Result, ok,
  ◌==◌, Bytes, length, length-append, refl, sym, ap, subst, ◌∙◌, arith, Bool-cases,
}
use embassy_rp_pio_usb_host.Wire.Toggle.{DataToggle}
use embassy_rp_pio_usb_host.Host.Types.{PipeError, EndpointType}
use embassy_rp_pio_usb_host.Host.Port.{PipeTicket}
use embassy_rp_pio_usb_host.Host.Pipe.{TransactionOutcome, Readings, Once, Verdict, Progress, Turn}
use embassy_rp_pio_usb_host.Host.Pipe.Packets.{concat}
use embassy_rp_pio_usb_host.Host.Pipe.In.{
  is_isochronous, judge_in, is_last, in_verdict, request_in_from, request_in,
}
use embassy_rp_pio_usb_host.Host.Pipe.In.Answers.{IsLogged, attempt_lem, tried, Answers}
use embassy_rp_pio_usb_host.Host.Pipe.In.Judge.{
  IsJudged, judge_in-IsJudged, judge_in-complete, judge_in-nak, judge_in-no_response,
}

module _ {κ} {S : Type κ} (log : S → List Bytes) (pipe : PipeTicket) (service_frame : S → S)
    (keeps : (world : S) → log (service_frame world) ≡ log world) (ep_type : EndpointType)
    (max_packet_size buffer_len : ℕ) (once : ℕ → Once Bytes S) (logged : IsLogged log once) where
  abbrev transfer : List Readings → ℕ → Bytes → DataToggle → S → Turn Bytes S
  transfer = request_in_from pipe service_frame ep_type max_packet_size buffer_len once

  abbrev Answered : List Readings → ℕ → Bytes → DataToggle → S → List Bytes → Type κ
  Answered = Answers pipe service_frame ep_type max_packet_size buffer_len once

  abbrev decided : Readings → List Readings → Bytes → DataToggle → S → Verdict Bytes → Turn Bytes S
  decided port passes received toggle world v =
      let answer =
        tried pipe service_frame ep_type max_packet_size buffer_len once port received toggle
          world in
      in_verdict pipe service_frame ep_type max_packet_size buffer_len once v answer passes received
        (λ next more. transfer passes next more answer.toggle answer.world)

  abbrev judged : ℕ → Bytes → Result PipeError (TransactionOutcome Bytes) → Verdict Bytes
  judged count received r = judge_in (is_isochronous ep_type) (buffer_len - length received) count r

  -- A pass whose verdict is known.
  transfer_by :
      (port : Readings) (passes : List Readings) (count : ℕ) (received : Bytes)
      (toggle : DataToggle) (world : S) (r : Result PipeError (TransactionOutcome Bytes))
      (v : Verdict Bytes)
      → (tried pipe service_frame ep_type max_packet_size buffer_len once port received toggle
          world).result
        ≡ r
      → judged count received r ≡ v
      → transfer (port ∷ passes) count received toggle world
        ≡ decided port passes received toggle world v
  unfolding request_in_from
  transfer_by port passes count received toggle world r v e j =
      ap (λ x. decided port passes received toggle world (judged count received x)) e
      ∙ ap (decided port passes received toggle world) j

  abbrev Ends : Bytes → S → List Bytes → Turn Bytes S → Type 0
  Ends received world packets turn =
      (turn.progress ≡ Progress.done (ok (received ++ concat packets)))
      × (log turn.world ≡ log world ++ packets)
      × (length (received ++ concat packets) ≤ buffer_len)

  decided_more :
      (port : Readings) (passes : List Readings) (received : Bytes) (toggle : DataToggle)
      (world : S) (packet : Bytes)
      → is_last ep_type max_packet_size buffer_len (received ++ packet) packet ≡ false
      → let answer =
          tried pipe service_frame ep_type max_packet_size buffer_len once port received toggle
            world in
        decided port passes received toggle world (Verdict.stop (ok packet))
        ≡ transfer passes 0 (received ++ packet) answer.toggle answer.world
  unfolding in_verdict
  decided_more port passes received toggle world packet l = rw l refl

  decided_last :
      (port : Readings) (passes : List Readings) (received : Bytes) (toggle : DataToggle)
      (world : S) (packet : Bytes)
      → is_last ep_type max_packet_size buffer_len (received ++ packet) packet ≡ true
      → let answer =
          tried pipe service_frame ep_type max_packet_size buffer_len once port received toggle
            world in
        decided port passes received toggle world (Verdict.stop (ok packet)) ≡ record {
          progress = Progress.done (ok (received ++ packet));
          toggle = answer.toggle;
          world = answer.world;
          passes = passes;
        }
  unfolding in_verdict
  decided_last port passes received toggle world packet l = rw l refl

  -- A pass that is tried again, or takes a packet in, before the rest of the transfer.
  again-Ends :
      (received : Bytes) (before after : S) (packets : List Bytes) (turn : Turn Bytes S)
      → log after ≡ log before
      → Ends received after packets turn
      → Ends received before packets turn
  again-Ends received before after packets turn w (p, l, n) =
      (p, l ∙ ap (λ (x : List Bytes). x ++ packets) w, n)

  more-Ends :
      (received : Bytes) (before after : S) (packet : Bytes) (packets : List Bytes)
      (turn : Turn Bytes S)
      → log after ≡ log before ++ (packet ∷ [])
      → Ends (received ++ packet) after packets turn
      → Ends received before (packet ∷ packets) turn
  more-Ends received before after packet packets turn w (p, l, n) =
      let joined = append_assoc received packet (concat packets) in
      (
        p ∙ ap (λ (b : Bytes). Progress.done (ok b)) joined,
        l
            ∙ ap (λ (x : List Bytes). x ++ packets) w
            ∙ append_assoc (log before) (packet ∷ []) packets,
        subst (λ (b : Bytes). length b ≤ buffer_len) joined n,
      )

  answers_end :
      {passes : List Readings} {count : ℕ} {received : Bytes} {toggle : DataToggle} {world : S}
      {packets : List Bytes}
      → Answered passes count received toggle world packets
      → Ends received world packets (transfer passes count received toggle world)
  unfolding in_verdict
  answers_end
        (Answers.refused {port} {passes} {count} {received} {toggle} {world} {packets} i r rest) =
      let answer =
        tried pipe service_frame ep_type max_packet_size buffer_len once port received toggle
          world in
      let later = transfer passes 0 received answer.toggle answer.world in
      let room : ℕ = buffer_len - length received in
      let (r', w) =
        attempt_lem log pipe service_frame keeps (once room) port toggle world
          TransactionOutcome.nak r in
      subst (Ends received world packets)
        (sym (
          transfer_by port passes count received toggle world (ok TransactionOutcome.nak)
            (Verdict.again 0) r (judge_in-nak (is_isochronous ep_type) room count i)))
        (again-Ends received world answer.world packets later
          (w ∙ logged.refuses room toggle world r') (answers_end rest))
  answers_end
        (Answers.unanswered {port} {passes} {count} {received} {toggle} {world} {packets} i r few
          rest) =
      let answer =
        tried pipe service_frame ep_type max_packet_size buffer_len once port received toggle
          world in
      let later = transfer passes (suc count) received answer.toggle answer.world in
      let room : ℕ = buffer_len - length received in
      let (r', w) =
        attempt_lem log pipe service_frame keeps (once room) port toggle world
          TransactionOutcome.no_response r in
      subst (Ends received world packets)
        (sym (
          transfer_by port passes count received toggle world (ok TransactionOutcome.no_response)
            (Verdict.again (suc count)) r
            (judge_in-no_response (is_isochronous ep_type) room count i few)))
        (again-Ends received world answer.world packets later
          (w ∙ logged.misses room toggle world r') (answers_end rest))
  answers_end
        (Answers.more {port} {passes} {count} {received} {toggle} {world} {packets} packet r fits l
          rest) =
      let answer =
        tried pipe service_frame ep_type max_packet_size buffer_len once port received toggle
          world in
      let later = transfer passes 0 (received ++ packet) answer.toggle answer.world in
      let room : ℕ = buffer_len - length received in
      let (r', w) =
        attempt_lem log pipe service_frame keeps (once room) port toggle world
          (TransactionOutcome.complete packet) r in
      subst (Ends received world (packet ∷ packets))
        (sym (
          transfer_by port passes count received toggle world
            (ok (TransactionOutcome.complete packet)) (Verdict.stop (ok packet)) r
            (judge_in-complete (is_isochronous ep_type) room count packet (omega arith))
          ∙ decided_more port passes received toggle world packet l))
        (more-Ends received world answer.world packet packets later
          (w ∙ logged.completes room toggle world packet r') (answers_end rest))
  answers_end (Answers.last {port} {passes} {count} {received} {toggle} {world} packet r fits l) =
      let room : ℕ = buffer_len - length received in
      let (r', w) =
        attempt_lem log pipe service_frame keeps (once room) port toggle world
          (TransactionOutcome.complete packet) r in
      let whole : length (received ++ packet) ≤ buffer_len =
        omega (arith, length-append received packet) in
      subst (Ends received world (packet ∷ []))
        (sym (
          transfer_by port passes count received toggle world
            (ok (TransactionOutcome.complete packet)) (Verdict.stop (ok packet)) r
            (judge_in-complete (is_isochronous ep_type) room count packet (omega arith))
          ∙ decided_last port passes received toggle world packet l))
        (
          ap (λ (b : Bytes). Progress.done (ok (received ++ b))) (sym (append-nil packet)),
          w ∙ logged.completes room toggle world packet r',
          subst (λ (b : Bytes). length (received ++ b) ≤ buffer_len) (sym (append-nil packet))
              whole,
        )

  answers_of :
      (passes : List Readings) (count : ℕ) (received : Bytes) (toggle : DataToggle) (world : S)
      (out : Bytes)
      → length received ≤ buffer_len
      → (transfer passes count received toggle world).progress ≡ Progress.done (ok out)
      → (packets : List Bytes) × Answered passes count received toggle world packets
        × (out ≡ received ++ concat packets)
  unfolding request_in_from in_verdict
  answers_of [] count received toggle world out fits h = absurd (ground arith)
  answers_of (port ∷ passes) count received toggle world out fits h =
      let room : ℕ = buffer_len - length received in
      let answer =
        tried pipe service_frame ep_type max_packet_size buffer_len once port received toggle
          world in
      let by = λ (v : Verdict Bytes).
        (decided port passes received toggle world v).progress ≡ Progress.done (ok out) in
      elim (judge_in-IsJudged (is_isochronous ep_type) room count answer.result) [
        | IsJudged.failed e v ↦ let stopped = subst by v h in absurd (ground arith)
        | IsJudged.packet_in packet v r len ↦
            let stopped = subst by v h in
            let within : length received + length packet ≤ buffer_len = omega arith in
            let fits' : length (received ++ packet) ≤ buffer_len =
              omega (arith, length-append received packet) in
            elim (Bool-cases
              (is_last ep_type max_packet_size buffer_len (received ++ packet) packet)) [
                | inl l ↦
                    let ended =
                      ap (λ (t : Turn Bytes S). t.progress)
                        (sym (decided_last port passes received toggle world packet l))
                      ∙ stopped in
                    let same : received ++ packet ≡ out = ground arith in
                    (
                      packet ∷ [],
                      Answers.last packet r within l,
                      sym same ∙ ap (λ (b : Bytes). received ++ b) (sym (append-nil packet)),
                    )
                | inr l ↦
                    let goes_on =
                      ap (λ (t : Turn Bytes S). t.progress)
                        (sym (decided_more port passes received toggle world packet l))
                      ∙ stopped in
                    let (packets, a, e) =
                      answers_of passes 0 (received ++ packet) answer.toggle answer.world out fits'
                        goes_on in
                    (
                      packet ∷ packets,
                      Answers.more packet r within l a,
                      e ∙ append_assoc received packet (concat packets),
                    )
              ]
        | IsJudged.naked i v r ↦
            let (packets, a, e) =
              answers_of passes 0 received answer.toggle answer.world out fits (subst by v h) in
            (packets, Answers.refused i r a, e)
        | IsJudged.silent i v r few ↦
            let (packets, a, e) =
              answers_of passes (suc count) received answer.toggle answer.world out fits
                (subst by v h) in
            (packets, Answers.unanswered i r few a, e)
      ]

  -- An IN transfer ends well with bytes `out` exactly if its passes were answered so: each pass by a
  -- packet that fits, by a NAK, or by nothing, fewer than 128 times in a row, up to the packet that
  -- is the last. An isochronous endpoint is not tried again; on others the transfer goes on after a
  -- NAK or a missing response. Then `out` is the packets joined in their order, these are exactly
  -- those that the transactions accepted, and they fit the buffer. The hypotheses are that the buffer
  -- is not empty, that a transaction logs the packet that it completes with and none when it is to be
  -- tried again, and that the frame's service logs none.
  pub request_in-collects :
      (passes : List Readings) (toggle : DataToggle) (world : S) (out : Bytes)
      → buffer_len ≢ 0
      → let turn =
          request_in pipe service_frame ep_type max_packet_size buffer_len once passes toggle
            world in
        turn.progress ≡ Progress.done (ok out) ↔ (
          (packets : List Bytes) × Answered passes 0 [] toggle world packets
          × (out ≡ concat packets)
          × (log turn.world ≡ log world ++ packets)
          × (length out ≤ buffer_len))
  unfolding request_in
  request_in-collects passes toggle world out room =
      let some_room : buffer_len == 0 ≡ false = ground arith in
      rw some_room (
        λ h.
            let (packets, a, e) = answers_of passes 0 [] toggle world out (omega arith) h in
            let (p, l, n) = answers_end a in
            (packets, a, e, l, subst (λ (b : Bytes). length b ≤ buffer_len) (sym e) n),
        λ (packets, a, e, l, n).
            (answers_end a).0 ∙ ap (λ (b : Bytes). Progress.done (ok b)) (sym e),
      )
