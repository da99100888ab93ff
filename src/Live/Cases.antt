-- ===== src/Live/Cases.antt =====
-- The ways through NpcapCapture::Run: it fails before the loop, or it runs the loop.
use pcap_constrictor_win_pac.Base.{
  ◌≡◌, ◌≢◌, refl, Bool, true, false, Option, none, some, [], ◌∷◌, ◌++◌, Bytes, codes, is_empty, ℤ,
  pos, to_int, if◌then◌else◌, ◌⊎◌, Option-cases, inl, inr, arith,
}
use pcap_constrictor_win_pac.Decode.Types.{PcapLinkType, ethernet}
use pcap_constrictor_win_pac.Live.Loop.{unsupported_datalink_error, try_map_datalink, what}
use pcap_constrictor_win_pac.Live.Run.{
  output_snaplen, failed, LiveRun, returned, new_capture, run_loop, run_supported, run_open,
  run_npcap, run,
}
use pcap_constrictor_win_pac.Live.Types.{Clocks, Handle, OpenLive}
use pcap_constrictor_win_pac.Pcap.Writer.{
  Written, ok, threw, WriteError, write_failed, incl_len_exceeds, OutStream, PcapWriter, new_writer,
  write_global_header,
}
use pcap_constrictor_win_pac.Policy.Config.{CaptureOptions, PolicyConfig}

-- What pcap_open_live answers to the options.
abbrev pub opening : OpenLive → CaptureOptions → Option Handle × Bytes
opening open_live config =
    open_live config.interface (to_int (output_snaplen config))
      (if config.promiscuous then pos 1 else pos 0) (to_int config.read_timeout_ms)

append-nonempty : (xs ys : Bytes) → xs ≢ [] → xs ++ ys ≢ []
append-nonempty [] ys h = ground arith
append-nonempty (x ∷ xs) ys h = ground arith

what-nonempty : (e : WriteError) → what e ≢ []
unfolding what
what-nonempty write_failed = ground arith
what-nonempty incl_len_exceeds = ground arith

unsupported-nonempty : (datalink : ℤ) → unsupported_datalink_error datalink ≢ []
unfolding unsupported_datalink_error
unsupported-nonempty datalink =
    append-nonempty (codes "unsupported live datalink ") _ (ground arith)

Written-split {ℓ} :
    {A : Type ℓ} (m : Written A) → ((e : WriteError) × (m ≡ threw e)) ⊎ ((a : A) × (m ≡ ok a))
Written-split (threw e) = inl (e, refl)
Written-split (ok a) = inr (a, refl)

text-nonempty :
    (text : Bytes)
    → (if is_empty text then codes "pcap_open_live failed with no error details" else text) ≢ []
text-nonempty [] = ground arith
text-nonempty (c ∷ cs) = ground arith

module _ {ℓ} (clocks : Clocks) (config : CaptureOptions) (policy_config : PolicyConfig)
    (path : Bytes) (file : Option OutStream) (P : LiveRun → Type ℓ)
    (early : (warning : Bytes) (link_type : PcapLinkType) (text printed : Bytes)
        (output : Option OutStream)
      → text ≢ []
      → P (
          returned (record {
            result = failed warning link_type text;
            printed = printed;
            output = output;
          }))) where
  -- The loop of an open capture, whatever its warning and what has been printed.
  abbrev pub Loops : Handle → Type ℓ
  Loops h =
      (stream : OutStream) (link_type : PcapLinkType) (writer : PcapWriter)
      (warning printed : Bytes)
      → file ≡ some stream
      → try_map_datalink h.datalink ≡ some link_type
      → write_global_header (new_writer stream (output_snaplen config) link_type) ≡ ok writer
      → P (run_loop clocks config h link_type warning printed (new_capture writer policy_config))

  run_supported_cases :
      (h : Handle) (link_type : PcapLinkType) (warning : Bytes)
      → try_map_datalink h.datalink ≡ some link_type
      → Loops h
      → P (run_supported clocks config policy_config path file h link_type warning)
  unfolding run_supported
  run_supported_cases h link_type warning maps loops = elim (Option-cases file) [
    | inl e ↦
        rw (e, run_supported)
          (early warning link_type _ _ none
            (append-nonempty (codes "failed to open output file '") _ (ground arith)))
    | inr (stream, e) ↦
        rw (e, run_supported)
          elim (Written-split
            (write_global_header (new_writer stream (output_snaplen config) link_type))) [
              | inl (why, t) ↦
                  rw (t, run_supported)
                    (early warning link_type _ _ (some stream) (what-nonempty why))
              | inr (writer, t) ↦
                  rw (t, run_supported) (loops stream link_type writer warning _ e maps t)
            ]
  ]

  run_open_cases :
      (h : Handle) (open_text : Bytes)
      → Loops h
      → P (run_open clocks config policy_config path file h open_text)
  unfolding run_open
  run_open_cases h open_text loops = elim (Option-cases (try_map_datalink h.datalink)) [
    | inl e ↦ rw (e, run_open) (early _ ethernet _ [] none (unsupported-nonempty h.datalink))
    | inr (link_type, e) ↦ rw (e, run_open) (run_supported_cases h link_type _ e loops)
  ]

  run_npcap_cases :
      (open_live : OpenLive)
      → ((h : Handle) → (opening open_live config).0 ≡ some h → Loops h)
      → P (run_npcap clocks open_live config policy_config path file)
  unfolding run_npcap
  run_npcap_cases open_live loops = elim (Option-cases (opening open_live config).0) [
    | inl e ↦
        rw (e, run_npcap) (early [] ethernet _ [] none (text-nonempty (opening open_live config).1))
    | inr (h, e) ↦ rw (e, run_npcap) (run_open_cases h (opening open_live config).1 (loops h e))
  ]

  -- A property of every failure before the loop, and of every loop behind an open capture, is one
  -- of Run.
  pub run_cases :
      (has_npcap : Bool) (open_live : OpenLive)
      → ((h : Handle) → (opening open_live config).0 ≡ some h → Loops h)
      → P (run has_npcap clocks open_live config policy_config path file)
  unfolding run
  run_cases true open_live loops = run_npcap_cases open_live loops
  run_cases false open_live loops = early [] ethernet _ [] none (ground arith)
