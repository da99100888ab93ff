-- ===== src/Live/Loop.antt =====
-- The capture loop of NpcapCapture::Run, capture/NpcapCapture.cpp.
use pcap_constrictor_win_pac.Base.{
  ℕ, ◌+◌, ◌-◌, ◌*◌, ◌%◌, ◌^◌, min, Bool, true, false, not, ◌&&◌, Option, none, some, List, [], ◌∷◌,
  ◌++◌, ◌==◌, ltb, leb, if◌then◌else◌, Bytes, codes, is_empty, ℤ, pos, negsuc, is_zero, is_negative,
  int_beq, int_to_string,
}
use pcap_constrictor_win_pac.Decode.Types.{PcapLinkType, null, ethernet}
use pcap_constrictor_win_pac.Feed.Types.{CaptureStats, add64, accumulate_decision_stats}
use pcap_constrictor_win_pac.Live.Types.{
  LiveCaptureTerminationReason, max_packets_reached, duration_reached, capture_loop_ended, Clocks,
  PcapPktHdr, NextAnswer, Round,
}
use pcap_constrictor_win_pac.Pcap.Writer.{
  ok, threw, WriteError, write_failed, incl_len_exceeds, PcapWriter, write_packet,
}
use pcap_constrictor_win_pac.Policy.Config.{CaptureOptions}
use pcap_constrictor_win_pac.Policy.Decide.{
  DecisionReason, LiveCaptureDecision, LiveCapturePolicy, evaluate,
}
use pcap_constrictor_win_pac.Policy.Packet.{CapturedPacket, unknown}

unfoldable pub stop_requested : Option Bool → Bool
stop_requested none = false
stop_requested (some flag) = flag

-- The bound is computed on the 64 signed bits of the clock, and one that wraps to a negative number
-- lies in the past.
unfoldable pub duration_limit_reached : Clocks → ℕ → ℕ → ℕ → Bool
duration_limit_reached clocks start_time now duration_sec =
    let bound = duration_sec * clocks.steady_per_second % 2 ^ 64 in
    if duration_sec == 0
    then false
    else if ltb bound (2 ^ 63)
    then leb bound (now - start_time)
    else true

unfoldable pub to_timestamp : Clocks → ℕ → ℕ → ℕ
to_timestamp clocks seconds microseconds =
    (seconds * 1000000 + microseconds) * clocks.system.ticks_per_us

unfoldable pub unsupported_datalink_error : ℤ → Bytes
unfolding int_to_string
unsupported_datalink_error datalink =
    codes "unsupported live datalink "
    ++ (int_to_string datalink
        ++ codes "; supported linktypes in this milestone are DLT_EN10MB and DLT_NULL")

-- DLT_EN10MB is 1 and DLT_NULL is 0.
unfoldable pub try_map_datalink : ℤ → Option PcapLinkType
try_map_datalink datalink =
    if int_beq datalink (pos 1)
    then some ethernet
    else if int_beq datalink (pos 0)
    then some null
    else none

-- In milliseconds.
unfoldable pub poll_interval : ℕ → ℕ
poll_interval read_timeout_ms = if read_timeout_ms == 0 then 10 else min read_timeout_ms 100

unfoldable pub append_warning : Bytes → Bytes → Bytes
append_warning warning message =
    if is_empty message
    then warning
    else if is_empty warning
    then message
    else warning ++ (codes "\n" ++ message)

-- A C string that may be null or empty, with what stands for it then.
unfoldable pub text_or : Option Bytes → Bytes → Bytes
text_or none fallback = fallback
text_or (some text) fallback = if is_empty text then fallback else text

-- `what()` of the exceptions of PcapWriter.
unfoldable pub what : WriteError → Bytes
what write_failed = codes "failed to write PCAP data"
what incl_len_exceeds = codes "incl_len exceeds available packet bytes"

-- What the loop does not change.
pub record Session : Type 0 where
  pub clocks : Clocks
  pub config : CaptureOptions
  pub link_type : PcapLinkType
  pub nonblocking : Bool
  pub start_time : ℕ

-- The objects and the parts of the result that it does, with the time that it has slept.
pub record Capture : Type 0 where
  pub writer : PcapWriter
  pub policy : LiveCapturePolicy
  pub stats : CaptureStats
  pub termination_reason : LiveCaptureTerminationReason
  pub message : Bytes
  pub slept_ms : ℕ

-- An iteration goes on to the next one, or leaves the loop.
pub data Progress : Type 0 where
  going left : Capture → Progress

unfoldable pub live_packet : Session → PcapPktHdr → (ℕ → ℕ) → CapturedPacket
unfolding to_timestamp
live_packet s h memory = record {
  packet = record {
    view_data = record { memory = memory; size = h.caplen };
    captured_len = h.caplen;
    original_len = h.len;
  };
  timestamp = to_timestamp s.clocks h.tv_sec h.tv_usec;
  ifindex = 0;
  direction = unknown;
  link_type = s.link_type;
}

-- The switch is that of the offline feed.
unfoldable pub accumulate_live_stats : CaptureStats → DecisionReason → CaptureStats
unfolding accumulate_decision_stats
accumulate_live_stats stats reason = accumulate_decision_stats stats reason

unfoldable pub count_packet : CaptureStats → ℕ → LiveCaptureDecision → CaptureStats
unfolding add64 accumulate_live_stats
count_packet s caplen decision =
    accumulate_live_stats
      (record s {
        packets_total = add64 s.packets_total 1;
        packets_written = add64 s.packets_written 1;
        bytes_input = add64 s.bytes_input caplen;
        bytes_output = add64 s.bytes_output decision.output_len;
      })
      decision.reason

-- A packet is decided, written and counted.
unfoldable pub capture_packet : Session → Capture → CapturedPacket → ℕ → Progress
unfolding count_packet what
capture_packet s c packet caplen =
    let (policy, decision) = evaluate c.policy packet in
    elim (write_packet s.clocks.system c.writer packet decision.output_len) [
      | threw e ↦ left (record c {
        policy = policy;
        termination_reason = LiveCaptureTerminationReason.error;
        message = what e;
      })
      | ok writer ↦ going (record c {
        writer = writer;
        policy = policy;
        stats = count_packet c.stats caplen decision;
      })
    ]

-- Npcap reports an error, or a packet that is not there.
unfoldable pub receive_error : Capture → Bytes → Progress
unfolding add64
receive_error c text = left (record c {
  termination_reason = LiveCaptureTerminationReason.error;
  message = text;
  stats = record c.stats { receive_errors = add64 c.stats.receive_errors 1 };
})

unfoldable pub wait_for_packet : Session → Capture → Progress
unfolding poll_interval
wait_for_packet s c =
    if s.nonblocking
    then going (record c { slept_ms = c.slept_ms + poll_interval s.config.read_timeout_ms })
    else going c

-- The packet behind a status above 0.
unfoldable pub deliver : Session → Capture → Option PcapPktHdr → Option (ℕ → ℕ) → Progress
unfolding receive_error live_packet capture_packet
deliver s c (some h) (some memory) = capture_packet s c (live_packet s h memory) h.caplen
deliver s c _ _ = receive_error c (codes "pcap_next_ex returned success without packet data")

-- PCAP_ERROR_BREAK is -2.
unfoldable pub receive : Session → Capture → NextAnswer → Progress
unfolding wait_for_packet receive_error text_or deliver
receive s c answer =
    if is_zero answer.status
    then wait_for_packet s c
    else if int_beq answer.status (negsuc 1)
    then left (record c { termination_reason = capture_loop_ended })
    else if is_negative answer.status
    then receive_error c
        (text_or answer.handle_error (codes "pcap_next_ex failed with no error details"))
    else deliver s c answer.header answer.bytes

unfoldable pub iteration : Session → Capture → Round → Progress
unfolding stop_requested duration_limit_reached receive
iteration s c r =
    if stop_requested r.stop_flag
    then left c
    else if not (s.config.max_packets == 0) && leb s.config.max_packets c.stats.packets_total
    then left (record c { termination_reason = max_packets_reached })
    else if duration_limit_reached s.clocks s.start_time r.now s.config.duration_sec
    then left (record c { termination_reason = duration_reached })
    else receive s c r.answer

-- The loop over the rounds that are seen; it is still going behind the last one, or has been left.
unfoldable pub capture_loop : Session → Capture → List Round → Progress
unfolding iteration
capture_loop s c [] = going c
capture_loop s c (r ∷ rounds) = elim (iteration s c r) [
  | left end ↦ left end
  | going next ↦ capture_loop s next rounds
]
