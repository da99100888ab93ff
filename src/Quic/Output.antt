-- ===== src/Quic/Output.antt =====
-- Where QuicConstrictor::Evaluate may cut a packet.
use pcap_constrictor_win_pac.Base.{
  ℕ, ◌+◌, ◌^◌, ◌<◌, ◌≤◌, ◌≡◌, ◌≢◌, refl, Bool, false, Option, none, some, arith, max, inl, inr,
  Bool-cases,
}
use pcap_constrictor_win_pac.Base.Table.{find}
use pcap_constrictor_win_pac.Decode.Types.{PacketDecodeResult}
use pcap_constrictor_win_pac.Policy.Config.{QuicOptions}
use pcap_constrictor_win_pac.Quic.Cases.{evaluate_cases}
use pcap_constrictor_win_pac.Quic.Evaluate.{
  LongWalk, behind, broken, expected_dcid, matched, match_dcid, match_unknown, match_short,
  after_long, quic_payload, long_walk, evaluate,
}
use pcap_constrictor_win_pac.Quic.Loop.{long_loop_inside}
use pcap_constrictor_win_pac.Quic.Flow.{make_canonical_flow}
use pcap_constrictor_win_pac.Quic.Types.{
  ConnectionId, FlowKey, FlowState, FlowDirection, Flows, QuicConstrictResult, short_header_matched,
  flow_eq,
}
use pcap_constrictor_win_pac.Span.{Span, subspan}

-- A cut at or behind the byte after the UDP header, and no other result with a length.
pub record IsShortCut (decoded : PacketDecodeResult) (r : QuicConstrictResult) : Type 0 where
  pub no_length : r.disposition ≢ short_header_matched → r.output_len ≡ 0
  pub behind_headers :
      r.disposition ≡ short_header_matched → decoded.transport_payload_offset < r.output_len
  pub inside_payload :
      r.disposition ≡ short_header_matched
      → r.output_len ≤ decoded.transport_payload_offset + decoded.transport_payload_length

module _ (config : QuicOptions) (decoded : PacketDecodeResult) (payload : Span)
    (exact : payload.size ≡ decoded.transport_payload_length)
    (small : decoded.transport_payload_offset + decoded.transport_payload_length < 2 ^ 32) where
  matched-IsShortCut :
      (offset keep : ℕ)
      → offset < payload.size
      → 0 < keep
      → IsShortCut decoded (matched decoded payload offset keep)
  unfolding matched
  matched-IsShortCut offset keep h k = ground arith

  match_dcid-IsShortCut :
      (offset : ℕ) (dcid : ConnectionId)
      → offset < payload.size
      → IsShortCut decoded (match_dcid config decoded payload offset dcid)
  unfolding match_dcid
  match_dcid-IsShortCut offset dcid h = ground (
    arith,
    matched-IsShortCut offset (max config.short_header_keep_packet_bytes (1 + dcid.length)) h,
  )

  match_unknown-IsShortCut :
      (offset : ℕ)
      → offset < payload.size
      → IsShortCut decoded (match_unknown config decoded payload offset)
  unfolding match_unknown
  match_unknown-IsShortCut offset h =
      ground (arith, matched-IsShortCut offset (max config.short_header_keep_packet_bytes 1) h)

  match_short-IsShortCut :
      (offset : ℕ) (d : FlowDirection) (found : Option FlowState)
      → offset < payload.size
      → IsShortCut decoded (match_short config decoded payload offset d found)
  unfolding match_short
  match_short-IsShortCut offset d none h = match_unknown-IsShortCut offset h
  match_short-IsShortCut offset d (some flow) h = elim (Bool-cases (expected_dcid d flow).known) [
    | inl known ↦ rw known (match_dcid-IsShortCut offset (expected_dcid d flow) h)
    | inr unknown ↦ rw unknown (match_unknown-IsShortCut offset h)
  ]

  after_long-IsShortCut :
      (flow : FlowKey × FlowDirection) (w : LongWalk)
      → ((after : Flows) (end : ℕ) (seen : Bool) → w ≡ behind after end seen → end ≤ payload.size)
      → IsShortCut decoded (after_long config decoded payload flow w).1
  unfolding after_long
  after_long-IsShortCut flow (broken flows) inside = ground arith
  after_long-IsShortCut (key, direction) (behind flows offset saw) inside =
      let h = inside flows offset saw refl in
      ground (arith, match_short-IsShortCut offset direction (find key flows))

pub long_walk-inside :
    (flows : Flows) (packet : Span) (decoded : PacketDecodeResult) {after : Flows} {end : ℕ}
    {seen : Bool}
    → long_walk packet decoded flows ≡ behind after end seen
    → end ≤ (quic_payload packet decoded).size
unfolding long_walk
long_walk-inside flows packet decoded e =
    long_loop_inside _ _ (quic_payload packet decoded) _ flows 0 false e (omega arith)

-- For a packet below 4 GiB, whatever the table holds: a result other than ShortHeaderMatched has
-- length 0; ShortHeaderMatched keeps all headers and at least one byte behind them, and its length
-- does not pass the end of the UDP payload.
pub evaluate-IsShortCut :
    (flows : Flows) (packet : Span) (decoded : PacketDecodeResult) (config : QuicOptions)
    → packet.size < 2 ^ 32
    → IsShortCut decoded (evaluate flows packet decoded config).1
evaluate-IsShortCut flows packet decoded config small =
    evaluate_cases (λ r. IsShortCut decoded r.1) flows packet decoded config (λ _. ground arith)
      (λ _ _. ground arith)
      λ _ _ fits.
        after_long-IsShortCut config decoded (quic_payload packet decoded)
          (unfold quic_payload subspan in refl) (omega arith) (make_canonical_flow decoded)
          (long_walk packet decoded flows)
          λ after end seen e.
            long_walk-inside flows packet decoded {after = after} {end = end} {seen = seen} e
