-- ===== src/Tls/Locality.antt =====
-- TlsConstrictor::Evaluate reads in range.
use pcap_constrictor_win_pac.Base.{
  ℕ, zero, suc, ◌+◌, ◌≤◌, ◌≡◌, refl, ap, ap₂, fun_ext, ◌∙◌, not, ◌&&◌, ltb, Bool, Option, none,
  some, if◌then◌else◌, Bool-cases, inl, inr, arith,
}
use pcap_constrictor_win_pac.Decode.Types.{PacketDecodeResult}
use pcap_constrictor_win_pac.Policy.Config.{TlsOptions}
use pcap_constrictor_win_pac.Span.Locality.{
  Agree, byte_at-Agree, has_bytes-Agree, has_bytes-true, read_be16-Agree, subspan-Agree,
}
use pcap_constrictor_win_pac.Span.{Span, has_bytes, subspan}
use pcap_constrictor_win_pac.Tls.Evaluate.{
  keep_all, conclude, after_scan, tls_payload, scan, flush, evaluate,
}
use pcap_constrictor_win_pac.Tls.Scan.{
  Scan, Round, again, leave, no_record_return, RecordHeader, read_tls_record_header, start_active,
  take_record, scan_round, scan_step, scan_loop, continue_with,
}
use pcap_constrictor_win_pac.Tls.Types.{
  TlsConstrictDisposition, no_record, malformed, no_application_data, DirectionKey, Directions,
  make_direction_key,
}

module _ {s t : Span} (a : Agree s t) where
  read_tls_record_header-Agree :
      (offset : ℕ) → read_tls_record_header s offset ≡ read_tls_record_header t offset
  unfolding read_tls_record_header
  read_tls_record_header-Agree offset = ground (
    arith,
    has_bytes-true s offset 5,
    has_bytes-Agree a offset 5,
    byte_at-Agree a offset,
    byte_at-Agree a (offset + 1),
    read_be16-Agree a (offset + 3),
  )

  module _ (config : TlsOptions) (key : DirectionKey) (confirmed : Bool) where
    scan_round-Agree :
        (header : Option RecordHeader) (c : Scan)
        → scan_round config key s confirmed header c ≡ scan_round config key t confirmed header c
    unfolding scan_round take_record start_active
    scan_round-Agree none c = refl
    scan_round-Agree (some header) c = rw a.same_size refl

    scan_step-Agree :
        (c : Scan) → scan_step config key s confirmed c ≡ scan_step config key t confirmed c
    unfolding scan_step
    scan_step-Agree c =
        ap (λ h. scan_round config key s confirmed h c)
          (read_tls_record_header-Agree c.payload_offset)
        ∙ scan_round-Agree (read_tls_record_header t c.payload_offset) c

    scan_loop-Agree :
        (fuel : ℕ) (c : Scan)
        → scan_loop fuel config key s confirmed c ≡ scan_loop fuel config key t confirmed c
    unfolding scan_loop
    scan_loop-Agree zero c = refl
    scan_loop-Agree (suc fuel) c =
        ap₂ (λ (b : Bool) r. if b then r else leave c)
          (ap (λ n. not c.uncertain && not c.reset_direction && ltb c.payload_offset n) a.same_size)
          (ap₂ continue_with (fun_ext (scan_loop-Agree fuel)) (scan_step-Agree c))

module _ {s t : Span} (a : Agree s t) where
  keep_all-Agree : (d : TlsConstrictDisposition) → keep_all s d ≡ keep_all t d
  unfolding keep_all
  keep_all-Agree d = rw a.same_size refl

  module _ (decoded : PacketDecodeResult) where
    conclude-Agree :
        (key : DirectionKey) (c : Scan) → conclude s decoded key c ≡ conclude t decoded key c
    unfolding conclude
    conclude-Agree key c = rw a.same_size refl

    after_scan-Agree :
        (key : DirectionKey) (r : Round) → after_scan s decoded key r ≡ after_scan t decoded key r
    unfolding after_scan
    after_scan-Agree key (again c) = conclude-Agree key c
    after_scan-Agree key (leave c) = conclude-Agree key c
    after_scan-Agree key (no_record_return erased c) = rw (keep_all-Agree no_record) refl

    scan-Agree :
        (config : TlsOptions) (directions : Directions)
        → decoded.transport_payload_offset + decoded.transport_payload_length ≤ s.size
        → scan config s decoded directions ≡ scan config t decoded directions
    unfolding scan tls_payload subspan
    scan-Agree config directions inside =
        scan_loop-Agree
          (subspan-Agree a decoded.transport_payload_offset decoded.transport_payload_length inside)
          config _ _ decoded.transport_payload_length _

  -- TlsConstrictor::Evaluate reads no byte outside the packet: for two memories that agree on the
  -- bytes of the packet, the results and the tables are equal.
  pub evaluate-Agree :
      (directions : Directions) (decoded : PacketDecodeResult) (config : TlsOptions)
      → evaluate directions s decoded config ≡ evaluate directions t decoded config
  unfolding evaluate
  evaluate-Agree directions decoded config =
      let offset = decoded.transport_payload_offset in
      let length = decoded.transport_payload_length in
      let key = make_direction_key decoded in
      let flushed = flush directions decoded in
      elim (Bool-cases (has_bytes s offset length)) [
        | inl e ↦
            let same : after_scan s decoded key (scan config s decoded flushed)
                ≡ after_scan t decoded key (scan config t decoded flushed) =
              after_scan-Agree decoded key (scan config s decoded flushed)
              ∙ ap (after_scan t decoded key)
                  (scan-Agree decoded config flushed (has_bytes-true s offset length e)) in
            rw
              (
                ← has_bytes-Agree a offset length,
                e,
                keep_all-Agree malformed,
                keep_all-Agree no_application_data,
                same,
              )
              refl
        | inr e ↦
            rw
              (
                ← has_bytes-Agree a offset length,
                e,
                keep_all-Agree malformed,
                keep_all-Agree no_application_data,
              )
              refl
      ]
