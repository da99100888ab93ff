-- ===== src/Quic/Isolation.antt =====
-- QuicConstrictor::Evaluate keeps the flows apart.
use pcap_constrictor_win_pac.Base.{
  ℕ, zero, suc, ◌+◌, ◌≡◌, ◌≢◌, refl, ap, ◌∙◌, Bool, true, false, inl, inr, Option-cases, arith,
}
use pcap_constrictor_win_pac.Base.Table.{find, find_or, find-store}
use pcap_constrictor_win_pac.Decode.Types.{PacketDecodeResult}
use pcap_constrictor_win_pac.Policy.Config.{QuicOptions}
use pcap_constrictor_win_pac.Quic.Cases.{evaluate_cases}
use pcap_constrictor_win_pac.Quic.Evaluate.{
  LongWalk, behind, broken, set_scid, learn, long_loop, after_long, quic_payload, long_walk,
  evaluate,
}
use pcap_constrictor_win_pac.Quic.Flow.{make_canonical_flow}
use pcap_constrictor_win_pac.Quic.Parse.{LongHeaderInfo, parse_long_header}
use pcap_constrictor_win_pac.Quic.Types.{
  FlowKey, FlowDirection, Flows, flow_eq, flow_key_beq_iff, empty_flow,
}
use pcap_constrictor_win_pac.Span.{Span}

abbrev flows_of : LongWalk → Flows
flows_of (behind flows offset saw) = flows
flows_of (broken flows) = flows

module _ (j key : FlowKey) (other : key ≢ j) where
  learn_apart :
      (direction : FlowDirection) (info : LongHeaderInfo) (flows : Flows)
      → find j (learn key direction info flows) ≡ find j flows
  unfolding learn
  learn_apart direction info flows = ground (
    arith,
    flow_key_beq_iff key j,
    find-store key j (find_or key empty_flow flows) flows,
    find-store key j (set_scid direction info.scid (find_or key empty_flow flows)) flows,
  )

  long_loop_apart :
      (fuel : ℕ) (direction : FlowDirection) (payload : Span) (flows : Flows) (offset : ℕ)
      (saw : Bool)
      → find j (flows_of (long_loop fuel key direction payload flows offset saw)) ≡ find j flows
  unfolding long_loop
  long_loop_apart zero direction payload flows offset saw = refl
  long_loop_apart (suc fuel) direction payload flows offset saw =
      elim (Option-cases (parse_long_header payload offset)) [
        | inl fails ↦ ground (arith, fails)
        | inr (info, parsed) ↦ ground (
          arith,
          parsed,
          learn_apart direction info flows,
          long_loop_apart fuel direction payload (learn key direction info flows)
              (offset + info.total_size) true,
        )
      ]

after_long_flows :
    (config : QuicOptions) (decoded : PacketDecodeResult) (payload : Span)
    (flow : FlowKey × FlowDirection) (w : LongWalk)
    → (after_long config decoded payload flow w).0 ≡ flows_of w
unfolding after_long
after_long_flows config decoded payload flow (broken flows) = refl
after_long_flows config decoded payload flow (behind flows offset saw) = ground arith

-- A packet changes no entry of the flow table but that of its own flow.
pub evaluate_other_flow :
    (j : FlowKey) (flows : Flows) (packet : Span) (decoded : PacketDecodeResult)
    (config : QuicOptions)
    → (make_canonical_flow decoded).0 ≢ j
    → find j (evaluate flows packet decoded config).0 ≡ find j flows
unfolding long_walk
evaluate_other_flow j flows packet decoded config other =
    evaluate_cases (λ r. find j r.0 ≡ find j flows) flows packet decoded config (λ _. refl)
      (λ _ _. refl)
      λ _ _ _.
        ap (find j) (
          after_long_flows config decoded (quic_payload packet decoded)
            (make_canonical_flow decoded) (long_walk packet decoded flows))
        ∙ long_loop_apart j (make_canonical_flow decoded).0 other (quic_payload packet decoded).size
            (make_canonical_flow decoded).1 (quic_payload packet decoded) flows 0 false
