-- ===== src/Live/Turns.antt =====
-- One iteration of the capture loop as a step relation.
use pcap_constrictor_win_pac.Base.{
  ℕ, ◌+◌, ◌<◌, ◌≤◌, ◌≡◌, ◌≢◌, refl, ◌⊎◌, inl, inr, Bool, true, false, not, ◌&&◌, Option, none, some,
  [], ◌==◌, leb, Bytes, is_empty, ℤ, pos, negsuc, is_zero, is_negative, int_beq, Bool-cases, arith,
}
use pcap_constrictor_win_pac.Feed.Types.{add64}
use pcap_constrictor_win_pac.Live.Loop.{
  stop_requested, duration_limit_reached, poll_interval, text_or, what, Session, Capture, Progress,
  going, left, live_packet, count_packet, capture_packet, receive_error, wait_for_packet, deliver,
  receive, iteration,
}
use pcap_constrictor_win_pac.Live.Types.{
  LiveCaptureTerminationReason, max_packets_reached, duration_reached, capture_loop_ended,
  PcapPktHdr, NextAnswer, Round,
}
use pcap_constrictor_win_pac.Pcap.Failure.{write_packet-Accepted, Written-cases}
use pcap_constrictor_win_pac.Pcap.Writer.{
  Written, ok, threw, write_failed, PcapWriter, write_packet,
}
use pcap_constrictor_win_pac.Policy.Bounds.{evaluate_fits}
use pcap_constrictor_win_pac.Policy.Decide.{LiveCapturePolicy, LiveCaptureDecision, evaluate}

-- The answer hands over the packet of this header and memory.
abbrev pub Delivers : NextAnswer → PcapPktHdr → (ℕ → ℕ) → Type 0
Delivers answer h memory =
    (is_zero answer.status ≡ false)
    × (is_negative answer.status ≡ false)
    × (answer.header ≡ some h)
    × (answer.bytes ≡ some memory)

-- The answer hands over no packet.
abbrev pub is_delivery : NextAnswer → Bool
is_delivery answer =
    not (is_zero answer.status)
    && (not (is_negative answer.status)
        && ((elim answer.header [ none ↦ false | some h ↦ true ])
            && (elim answer.bytes [ none ↦ false | some memory ↦ true ])))

abbrev pub BelowLimit : ℕ → ℕ → Type 0
BelowLimit limit n = (limit ≡ 0) ⊎ (n < limit)

-- What the policy makes of the packet, and the writer of that.
abbrev pub decide :
    Session → Capture → PcapPktHdr → (ℕ → ℕ) → LiveCapturePolicy × LiveCaptureDecision
decide s c h memory = evaluate c.policy (live_packet s h memory)

abbrev pub write : Session → Capture → PcapPktHdr → (ℕ → ℕ) → Written PcapWriter
write s c h memory =
    write_packet s.clocks.system c.writer (live_packet s h memory)
      (decide s c h memory).1.output_len

-- What an iteration may do.
pub data Turn (s : Session) (c : Capture) (r : Round) : Progress → Type 0 where
  flagged : stop_requested r.stop_flag ≡ true → Turn s c r (left c)
  counted :
      s.config.max_packets ≢ 0
      → s.config.max_packets ≤ c.stats.packets_total
      → Turn s c r (left (record c { termination_reason = max_packets_reached }))
  timed :
      duration_limit_reached s.clocks s.start_time r.now s.config.duration_sec ≡ true
      → Turn s c r (left (record c { termination_reason = duration_reached }))
  idle :
      (slept : ℕ)
      → slept ≤ c.slept_ms + 100
      → is_delivery r.answer ≡ false
      → Turn s c r (going (record c { slept_ms = slept }))
  broken :
      r.answer.status ≡ negsuc 1
      → Turn s c r (left (record c { termination_reason = capture_loop_ended }))
  refused :
      (text : Bytes)
      → text ≢ []
      → Turn s c r (
          left (record c {
            termination_reason = LiveCaptureTerminationReason.error;
            message = text;
            stats = record c.stats { receive_errors = add64 c.stats.receive_errors 1 };
          }))
  unwritten :
      (h : PcapPktHdr) (memory : ℕ → ℕ)
      → Delivers r.answer h memory
      → write s c h memory ≡ threw write_failed
      → Turn s c r (
          left (record c {
            policy = (decide s c h memory).0;
            termination_reason = LiveCaptureTerminationReason.error;
            message = what write_failed;
          }))
  captured :
      (h : PcapPktHdr) (memory : ℕ → ℕ) (writer : PcapWriter)
      → BelowLimit s.config.max_packets c.stats.packets_total
      → Delivers r.answer h memory
      → write s c h memory ≡ ok writer
      → Turn s c r (
          going (record c {
            writer = writer;
            policy = (decide s c h memory).0;
            stats = count_packet c.stats h.caplen (decide s c h memory).1;
          }))

capture_packet-Turn :
    (s : Session) (c : Capture) (r : Round) (h : PcapPktHdr) (memory : ℕ → ℕ)
    → BelowLimit s.config.max_packets c.stats.packets_total
    → Delivers r.answer h memory
    → Turn s c r (capture_packet s c (live_packet s h memory) h.caplen)
unfolding capture_packet
capture_packet-Turn s c r h memory below del =
    let p = live_packet s h memory in
    let d = evaluate c.policy p in
    let fits = evaluate_fits c.policy p in
    elim (Written-cases (write_packet s.clocks.system c.writer p d.1.output_len)
      (write_packet-Accepted s.clocks.system c.writer p d.1.output_len fits.0)) [
        | inl e ↦ rw (e, capture_packet) (unwritten h memory del e)
        | inr (w, e) ↦ rw (e, capture_packet) (captured h memory w below del e)
      ]

text_or-nonempty : (o : Option Bytes) (fallback : Bytes) → fallback ≢ [] → text_or o fallback ≢ []
unfolding text_or
text_or-nonempty none fallback h = h
text_or-nonempty (some text) fallback h = elim (Bool-cases (is_empty text)) [
  | inl e ↦ rw e h
  | inr e ↦ rw e (ground arith)
]

deliver-Turn :
    (s : Session) (c : Capture) (r : Round) (header : Option PcapPktHdr) (bytes : Option (ℕ → ℕ))
    → BelowLimit s.config.max_packets c.stats.packets_total
    → is_zero r.answer.status ≡ false
    → is_negative r.answer.status ≡ false
    → r.answer.header ≡ header
    → r.answer.bytes ≡ bytes
    → Turn s c r (deliver s c header bytes)
unfolding deliver receive_error
deliver-Turn s c r (some h) (some memory) below a b e f =
    capture_packet-Turn s c r h memory below (a, b, e, f)
deliver-Turn s c r none _ below a b e f = refused _ (ground arith)
deliver-Turn s c r (some h) none below a b e f = refused _ (ground arith)

wait-Turn :
    (s : Session) (c : Capture) (r : Round)
    → is_zero r.answer.status ≡ true
    → Turn s c r (wait_for_packet s c)
unfolding wait_for_packet poll_interval
wait-Turn s c r e = elim (Bool-cases s.nonblocking) [
  | inl n ↦ rw n (idle _ (ground arith) (rw e refl))
  | inr n ↦ rw n (idle c.slept_ms (omega arith) (rw e refl))
]

int_beq-true : (a b : ℤ) → int_beq a b ≡ true → a ≡ b
int_beq-true (pos a) (pos b) e = ground arith
int_beq-true (pos a) (negsuc b) e = ground arith
int_beq-true (negsuc a) (pos b) e = ground arith
int_beq-true (negsuc a) (negsuc b) e = ground arith

receive-Turn :
    (s : Session) (c : Capture) (r : Round)
    → BelowLimit s.config.max_packets c.stats.packets_total
    → Turn s c r (receive s c r.answer)
unfolding receive receive_error
receive-Turn s c r below = elim (Bool-cases (is_zero r.answer.status)) [
  | inl e ↦ rw e (wait-Turn s c r e)
  | inr e ↦ rw e elim (Bool-cases (int_beq r.answer.status (negsuc 1))) [
    | inl b ↦ rw b (broken (int_beq-true r.answer.status (negsuc 1) b))
    | inr b ↦ rw b elim (Bool-cases (is_negative r.answer.status)) [
      | inl n ↦ rw n (refused _ (text_or-nonempty r.answer.handle_error _ (ground arith)))
      | inr n ↦ rw n (deliver-Turn s c r r.answer.header r.answer.bytes below e n refl refl)
    ]
  ]
]

-- Every iteration is a turn.
pub iteration-Turn : (s : Session) (c : Capture) (r : Round) → Turn s c r (iteration s c r)
unfolding iteration
iteration-Turn s c r = elim (Bool-cases (stop_requested r.stop_flag)) [
  | inl e ↦ rw e (flagged e)
  | inr e ↦
      rw e
        elim (Bool-cases
          (not (s.config.max_packets == 0) && leb s.config.max_packets c.stats.packets_total)) [
            | inl m ↦ rw m (counted (ground arith) (ground arith))
            | inr m ↦
                rw m
                  elim (Bool-cases
                    (duration_limit_reached s.clocks s.start_time r.now s.config.duration_sec)) [
                      | inl t ↦ rw t (timed t)
                      | inr t ↦ rw t (receive-Turn s c r (ground arith))
                    ]
          ]
]
