-- ===== src/Live/Books.antt =====
-- The counters of a live capture.
use pcap_constrictor_win_pac.Base.{
  ℕ, suc, ◌+◌, ◌^◌, ◌<◌, ◌≤◌, ◌≡◌, ap, ◌∙◌, ◌⊎◌, Option, none, some, List, [], ◌∷◌, length, arith,
}
use pcap_constrictor_win_pac.Feed.Types.{CaptureStats, add64, accumulate_decision_stats}
use pcap_constrictor_win_pac.Live.Loop.{
  Session, Capture, Progress, going, left, live_packet, count_packet, iteration, capture_loop,
}
use pcap_constrictor_win_pac.Live.Turns.{
  BelowLimit, decide, Turn, flagged, counted, timed, idle, broken, refused, unwritten, captured,
  iteration-Turn,
}
use pcap_constrictor_win_pac.Live.Types.{PcapPktHdr, Round}
use pcap_constrictor_win_pac.Policy.Bounds.{evaluate_fits}
use pcap_constrictor_win_pac.Policy.Decide.{LiveCaptureDecision}
use pcap_constrictor_win_pac.Policy.Packet.{safe_captured_len}

abbrev offered : Option PcapPktHdr → ℕ
offered none = 0
offered (some h) = h.caplen

-- The captured lengths of all headers that Npcap shows.
abbrev pub offered_bytes : List Round → ℕ
offered_bytes [] = 0
offered_bytes (r ∷ rounds) = offered r.answer.header + offered_bytes rounds

-- The counters, with rounds and bytes that may still be added.
pub record Tally (limit : ℕ) (s : CaptureStats) (rounds bytes : ℕ) : Type 0 where
  pub every_packet_written : s.packets_written ≡ s.packets_total
  pub output_within_input : s.bytes_output ≤ s.bytes_input
  pub at_most_one_reason :
      s.tls_appdata_constricted + s.tls_fallback + s.quic_long_header + s.quic_short_matched
        + s.quic_short_constricted + s.quic_fallback
      ≤ s.packets_total
  pub within_limit : (limit ≡ 0) ⊎ (s.packets_total ≤ limit)
  pub rounds_left : s.packets_total + rounds < 2 ^ 64
  pub bytes_left : s.bytes_input + bytes < 2 ^ 64

count_packet-Tally :
    (limit : ℕ) (s : CaptureStats) (caplen rounds bytes : ℕ) (d : LiveCaptureDecision)
    → Tally limit s (suc rounds) (caplen + bytes)
    → BelowLimit limit s.packets_total
    → d.output_len ≤ caplen
    → Tally limit (count_packet s caplen d) rounds bytes
unfolding count_packet accumulate_decision_stats add64
count_packet-Tally limit s caplen rounds bytes d t below le = ground (
  arith, t.every_packet_written, t.output_within_input, t.at_most_one_reason, t.within_limit,
  t.rounds_left, t.bytes_left,
)

receive_errors-count_packet :
    (s : CaptureStats) (caplen : ℕ) (d : LiveCaptureDecision)
    → (count_packet s caplen d).receive_errors ≡ s.receive_errors
unfolding count_packet accumulate_decision_stats
receive_errors-count_packet s caplen d = ground arith

Tally-mono :
    {limit rounds bytes rounds' bytes' : ℕ} {s : CaptureStats}
    → Tally limit s rounds bytes
    → rounds' ≤ rounds
    → bytes' ≤ bytes
    → Tally limit s rounds' bytes'
Tally-mono t a b = record {
  every_packet_written = t.every_packet_written;
  output_within_input = t.output_within_input;
  at_most_one_reason = t.at_most_one_reason;
  within_limit = t.within_limit;
  rounds_left = ground (arith, t.rounds_left);
  bytes_left = ground (arith, t.bytes_left);
}

decide_fits :
    (s : Session) (c : Capture) (h : PcapPktHdr) (memory : ℕ → ℕ)
    → (decide s c h memory).1.output_len ≤ h.caplen
unfolding live_packet safe_captured_len
decide_fits s c h memory = ground (arith, evaluate_fits c.policy (live_packet s h memory))

-- The capture behind an iteration.
abbrev pub state : Progress → Capture
state (going c) = c
state (left c) = c

-- The counters while the loop is going, and when it has been left, which is when at most one error
-- has been counted.
abbrev pub Counted : ℕ → ℕ → ℕ → Progress → Type 0
Counted limit rounds bytes (going c) =
    Tally limit c.stats rounds bytes × (c.stats.receive_errors ≡ 0)
Counted limit rounds bytes (left c) = Tally limit c.stats 0 0 × (c.stats.receive_errors ≤ 1)

Turn-Counted :
    (s : Session) (c : Capture) (r : Round) (rounds bytes : ℕ) {out : Progress}
    → Tally s.config.max_packets c.stats (suc rounds) (offered r.answer.header + bytes)
    → c.stats.receive_errors ≡ 0
    → Turn s c r out
    → Counted s.config.max_packets rounds bytes out
unfolding add64
Turn-Counted s c r rounds bytes t z (flagged e) =
    (Tally-mono t (omega arith) (omega arith), omega arith)
Turn-Counted s c r rounds bytes t z (counted m n) =
    (Tally-mono t (omega arith) (omega arith), omega arith)
Turn-Counted s c r rounds bytes t z (timed e) =
    (Tally-mono t (omega arith) (omega arith), omega arith)
Turn-Counted s c r rounds bytes t z (idle ms le e) = (Tally-mono t (omega arith) (omega arith), z)
Turn-Counted s c r rounds bytes t z (broken e) =
    (Tally-mono t (omega arith) (omega arith), omega arith)
Turn-Counted s c r rounds bytes t z (refused text n) = ground (
  arith, t.every_packet_written, t.output_within_input, t.at_most_one_reason, t.within_limit,
  t.rounds_left, t.bytes_left,
)
Turn-Counted s c r rounds bytes t z (unwritten h memory del e) =
    (Tally-mono t (omega arith) (omega arith), omega arith)
Turn-Counted s c r rounds bytes t z (captured h memory w below del e) =
    let shown : offered r.answer.header ≡ h.caplen = ap offered del.2 in
    (
      count_packet-Tally s.config.max_packets c.stats h.caplen rounds bytes _
          (Tally-mono t (omega arith) (omega arith)) below (decide_fits s c h memory),
      receive_errors-count_packet c.stats h.caplen _ ∙ z,
    )

-- The rest of the loop behind an iteration.
abbrev pub onward : Session → List Round → Progress → Progress
onward s rounds out = elim out [ left end ↦ left end | going next ↦ capture_loop s next rounds ]

onward-Counted :
    (s : Session) (rounds : List Round)
    → ((c : Capture)
        → Tally s.config.max_packets c.stats (length rounds) (offered_bytes rounds)
        → c.stats.receive_errors ≡ 0
        → Counted s.config.max_packets 0 0 (capture_loop s c rounds))
    → (out : Progress) → Counted s.config.max_packets (length rounds) (offered_bytes rounds) out
    → Counted s.config.max_packets 0 0 (onward s rounds out)
onward-Counted s rounds ih (going c) (t, z) = ih c t z
onward-Counted s rounds ih (left c) counts = counts

pub capture_loop-Counted :
    (s : Session) (c : Capture) (rounds : List Round)
    → Tally s.config.max_packets c.stats (length rounds) (offered_bytes rounds)
    → c.stats.receive_errors ≡ 0
    → Counted s.config.max_packets 0 0 (capture_loop s c rounds)
unfolding capture_loop
capture_loop-Counted s c [] t z = (t, z)
capture_loop-Counted s c (r ∷ rounds) t z =
    onward-Counted s rounds (λ next. capture_loop-Counted s next rounds) (iteration s c r)
      (Turn-Counted s c r (length rounds) (offered_bytes rounds) t z (iteration-Turn s c r))
