-- ===== src/Quic/Learning.antt =====
-- A short header is cut only on the strength of a connection id that the peer announced.
use pcap_constrictor_win_pac.Base.{
  ℕ, zero, suc, ◌+◌, ◌<◌, ◌≤◌, ◌≡◌, refl, ap, ◌∙◌, true, some, get_or, inl, inr, Option-cases,
  arith,
}
use pcap_constrictor_win_pac.Base.Table.{find}
use pcap_constrictor_win_pac.Decode.Types.{PacketDecodeResult}
use pcap_constrictor_win_pac.Policy.Config.{QuicOptions}
use pcap_constrictor_win_pac.Quic.Cases.{evaluate_cases}
use pcap_constrictor_win_pac.Quic.Evaluate.{
  LongWalk, behind, broken, expected_dcid, match_dcid, match_unknown, match_short, after_long,
  quic_payload, long_walk, evaluate,
}
use pcap_constrictor_win_pac.Quic.Flow.{make_canonical_flow}
use pcap_constrictor_win_pac.Quic.Parse.{
  is_short_header_compatible, equal_bytes, connection_id_matches,
}
use pcap_constrictor_win_pac.Quic.Types.{
  ConnectionId, FlowKey, FlowState, FlowDirection, Flows, short_header_matched, flow_eq,
}
use pcap_constrictor_win_pac.Span.{Span, byte_at, has_bytes}

-- The bytes at `offset` are those of the id, from `index` on.
abbrev pub Carries : Span → ℕ → ConnectionId → ℕ → ℕ → Type 0
Carries payload offset cid index count =
    (i : ℕ) → i < count → get_or cid.bytes (index + i) 0 ≡ byte_at payload (offset + i)

equal_bytes-Carries :
    (n : ℕ) (cid : ConnectionId) (index : ℕ) (payload : Span) (offset : ℕ)
    → equal_bytes n cid index payload offset ≡ true
    → Carries payload offset cid index n
unfolding equal_bytes
equal_bytes-Carries zero cid index payload offset e i h = elim h [ ]
equal_bytes-Carries (suc n) cid index payload offset e zero h =
    ap (λ k. get_or cid.bytes k 0) (omega arith) ∙ first ∙ ap (byte_at payload) (omega arith)
  where
    first : get_or cid.bytes index 0 ≡ byte_at payload offset
    first = ground arith
equal_bytes-Carries (suc n) cid index payload offset e (suc i) h =
    ap (λ k. get_or cid.bytes k 0) (omega arith)
    ∙ equal_bytes-Carries n cid (index + 1) payload (offset + 1) (ground arith) i (omega arith)
    ∙ ap (byte_at payload) (omega arith)

Carries-equal_bytes :
    (n : ℕ) (cid : ConnectionId) (index : ℕ) (payload : Span) (offset : ℕ)
    → Carries payload offset cid index n
    → equal_bytes n cid index payload offset ≡ true
unfolding equal_bytes
Carries-equal_bytes zero cid index payload offset c = refl
Carries-equal_bytes (suc n) cid index payload offset c =
    ground (arith, first, Carries-equal_bytes n cid (index + 1) payload (offset + 1) rest)
  where
    first : get_or cid.bytes index 0 ≡ byte_at payload offset
    first =
        ap (λ k. get_or cid.bytes k 0) (omega arith)
        ∙ c 0 (omega arith)
        ∙ ap (byte_at payload) (omega arith)

    rest : Carries payload (offset + 1) cid (index + 1) n
    rest i h =
        ap (λ k. get_or cid.bytes k 0) (omega arith)
        ∙ c (suc i) (omega arith)
        ∙ ap (byte_at payload) (omega arith)

connection_id_matches-Carries :
    (cid : ConnectionId) (payload : Span) (offset : ℕ)
    → connection_id_matches cid payload offset ≡ true
    → (cid.known ≡ true) × Carries payload offset cid 0 cid.length
unfolding connection_id_matches
connection_id_matches-Carries cid payload offset e =
    (ground arith, equal_bytes-Carries cid.length cid 0 payload offset (ground arith))

pub Carries-connection_id_matches :
    (cid : ConnectionId) (payload : Span) (offset : ℕ)
    → cid.known ≡ true
    → Carries payload offset cid 0 cid.length
    → connection_id_matches cid payload offset ≡ true
unfolding connection_id_matches
Carries-connection_id_matches cid payload offset known c =
    ground (arith, Carries-equal_bytes cid.length cid 0 payload offset c)

-- What ShortHeaderMatched rests on: a short header at `offset` that carries the known id `cid`.
pub record IsMatch (payload : Span) (offset : ℕ) (cid : ConnectionId) : Type 0 where
  pub id_known : cid.known ≡ true
  pub id_fits : offset + 1 + cid.length ≤ payload.size
  pub short : is_short_header_compatible (byte_at payload offset) ≡ true
  pub carries : Carries payload (offset + 1) cid 0 cid.length

module _ (config : QuicOptions) (decoded : PacketDecodeResult) (payload : Span)
    (strict : config.require_dcid_match ≡ true) where
  match_dcid-IsMatch :
      (offset : ℕ) (dcid : ConnectionId)
      → is_short_header_compatible (byte_at payload offset) ≡ true
      → (match_dcid config decoded payload offset dcid).disposition ≡ short_header_matched
      → IsMatch payload offset dcid
  unfolding match_dcid has_bytes
  match_dcid-IsMatch offset dcid short e =
      let m = connection_id_matches-Carries dcid payload (offset + 1) (ground arith) in
      record { id_known = m.0; id_fits = ground arith; short = short; carries = m.1 }

  after_long-IsMatch :
      (key : FlowKey) (direction : FlowDirection) (w : LongWalk)
      → let r = after_long config decoded payload (key, direction) w in
        r.1.disposition ≡ short_header_matched
        → (state : FlowState) × (offset : ℕ) × (find key r.0 ≡ some state)
          × IsMatch payload offset (expected_dcid direction state)
  unfolding after_long match_short match_unknown
  after_long-IsMatch key direction (broken flows) e = absurd (ground arith)
  after_long-IsMatch key direction (behind flows offset saw) e =
      elim (Option-cases (find key flows)) [
        | inl missing ↦ absurd (ground (arith, missing))
        | inr (state, found) ↦ (
          state,
          offset,
          ground (arith, found),
          match_dcid-IsMatch offset (expected_dcid direction state) (ground (arith, found))
              (ground (arith, found)),
        )
      ]

-- With `require_dcid_match`, a packet is matched only if the table holds, for its flow, a known
-- connection id of the receiving endpoint, and a short header in the payload carries every byte of
-- that id behind its first byte.
pub evaluate-IsMatch :
    (flows : Flows) (packet : Span) (decoded : PacketDecodeResult) (config : QuicOptions)
    → config.require_dcid_match ≡ true
    → (evaluate flows packet decoded config).1.disposition ≡ short_header_matched
    → (state : FlowState) × (offset : ℕ) × (find
          (make_canonical_flow decoded).0
          (evaluate flows packet decoded config).0
        ≡ some state)
      × IsMatch
          (quic_payload packet decoded)
          offset
          (expected_dcid (make_canonical_flow decoded).1 state)
evaluate-IsMatch flows packet decoded config strict =
    evaluate_cases
      (λ r.
        r.1.disposition ≡ short_header_matched
        → (state : FlowState) × (offset : ℕ) × (find (make_canonical_flow decoded).0 r.0
            ≡ some state)
          × IsMatch (quic_payload packet decoded) offset
              (expected_dcid (make_canonical_flow decoded).1 state))
      flows packet decoded config (λ _ e. absurd (ground arith)) (λ _ _ e. absurd (ground arith))
      λ _ _ _.
        after_long-IsMatch config decoded (quic_payload packet decoded) strict
          (make_canonical_flow decoded).0 (make_canonical_flow decoded).1
          (long_walk packet decoded flows)
