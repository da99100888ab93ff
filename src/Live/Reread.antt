-- ===== src/Live/Reread.antt =====
-- The output file of a live capture, read back by PcapReader.
use pcap_constrictor_win_pac.Base.{
  ℕ, zero, suc, ◌^◌, ◌<◌, ◌≤◌, ◌≡◌, refl, ap, ◌∙◌, subst, true, none, some, List, [], ◌∷◌, ◌++◌,
  take, length, Bytes, arith, inl, inr, Option-cases,
}
use pcap_constrictor_win_pac.Decode.Types.{ethernet}
use pcap_constrictor_win_pac.Feed.Run.{closed_reader}
use pcap_constrictor_win_pac.Live.Cases.{opening}
use pcap_constrictor_win_pac.Live.File.{Leaves, live_file, run-Leaves}
use pcap_constrictor_win_pac.Live.Loop.{Session, try_map_datalink, live_packet}
use pcap_constrictor_win_pac.Live.Output.{prepend, handed_over, packets, cut}
use pcap_constrictor_win_pac.Live.Run.{output_snaplen, Ran, returned, new_session, run}
use pcap_constrictor_win_pac.Live.Types.{Clocks, PcapPktHdr, Round, Handle, OpenLive}
use pcap_constrictor_win_pac.Pcap.Layout.{header_bytes}
use pcap_constrictor_win_pac.Pcap.Reader.{PcapReader, open_reader}
use pcap_constrictor_win_pac.Pcap.RoundTrip.{opened}
use pcap_constrictor_win_pac.Pcap.Whole.{
  Emitted, body, AllFit, fits_nil, fits_cons, read_all, reread_all, read_all-header_bytes,
}
use pcap_constrictor_win_pac.Pcap.Writer.{OutStream}
use pcap_constrictor_win_pac.Policy.Bounds.{evaluate_fits}
use pcap_constrictor_win_pac.Policy.Config.{CaptureOptions, PolicyConfig}
use pcap_constrictor_win_pac.Policy.Decide.{LiveCapturePolicy, evaluate, new_policy}
use pcap_constrictor_win_pac.Policy.Packet.{CapturedPacket, safe_captured_len}

-- The `len` of every header fits its 32 bits.
abbrev pub HeadersFit : List Round → Type 0
HeadersFit [] = Unit {0}
HeadersFit (r ∷ rounds) =
    ((h : PcapPktHdr) → r.answer.header ≡ some h → h.len < 2 ^ 32) × HeadersFit rounds

abbrev PacketsFit : List CapturedPacket → Type 0
PacketsFit [] = Unit {0}
PacketsFit (p ∷ ps) = (p.packet.original_len < 2 ^ 32) × PacketsFit ps

handed_over-fits :
    (s : Session) (r : Round) (ps : List CapturedPacket)
    → ((h : PcapPktHdr) → r.answer.header ≡ some h → h.len < 2 ^ 32)
    → PacketsFit ps
    → PacketsFit (prepend (handed_over s r.answer) ps)
unfolding live_packet
handed_over-fits s r ps short fits = elim (Option-cases r.answer.header) [
  | inl e ↦ ground arith
  | inr (h, e) ↦ let le = short h e in ground arith
]

packets-PacketsFit :
    (s : Session) (rounds : List Round) → HeadersFit rounds → PacketsFit (packets s rounds)
packets-PacketsFit s [] fits = tt
packets-PacketsFit s (r ∷ rounds) (short, fits) =
    handed_over-fits s r (packets s rounds) short (packets-PacketsFit s rounds fits)

cut-AllFit :
    (policy : LiveCapturePolicy) (n : ℕ) (ps : List CapturedPacket)
    → PacketsFit ps
    → AllFit (cut policy (take n ps))
unfolding safe_captured_len
cut-AllFit policy zero ps fits = fits_nil
cut-AllFit policy (suc n) [] fits = fits_nil
cut-AllFit policy (suc n) (p ∷ ps) (short, fits) =
    fits_cons (ground (arith, evaluate_fits policy p)) short
      (cut-AllFit (evaluate policy p).0 n ps fits)

length-cut :
    (policy : LiveCapturePolicy) (n : ℕ) (ps : List CapturedPacket)
    → n ≤ length ps
    → length (cut policy (take n ps)) ≡ n
length-cut policy zero ps le = refl
length-cut policy (suc n) [] le = absurd (omega arith)
length-cut policy (suc n) (p ∷ ps) le = ap suc (length-cut (evaluate policy p).0 n ps (omega arith))

-- The records that PcapReader delivers from an output, and the packets that they were.
pub record IsReread (clocks : Clocks) (es : Emitted) (out : OutStream) : Type 0 where
  pub reader : PcapReader
  pub opens :
      open_reader closed_reader
        (record { reported_size = some (length out.content); content = some out.content })
      ≡ (reader, true)
  pub delivers : read_all (suc (length es)) reader ≡ reread_all clocks.system reader es
  pub no_error : (reread_all clocks.system reader es).0.error ≡ none
  pub all : length (reread_all clocks.system reader es).1 ≡ length es

reread_lem :
    (clocks : Clocks) (snaplen : ℕ) (es : Emitted) (out : OutStream)
    → out.content ≡ header_bytes snaplen ethernet ++ body clocks.system es
    → 0 < snaplen
    → snaplen < 2 ^ 32
    → AllFit es
    → length out.content < 2 ^ 64
    → IsReread clocks es out
reread_lem clocks snaplen es out e pos fits all small =
    let whole =
      read_all-header_bytes clocks.system closed_reader snaplen es pos fits all
        (subst (λ bs. length bs < 2 ^ 64) e small) in
    record {
      reader =
          opened snaplen (length (header_bytes snaplen ethernet ++ body clocks.system es))
            (body clocks.system es);
      opens = rw e (whole.0);
      delivers = whole.1;
      no_error = whole.2;
      all = whole.3;
    }

-- The file of a live Ethernet capture is read back whole: where the capture opens on DLT_EN10MB,
-- the output file is empty at first and takes all data, the snap length is not 0 and fits 32 bits,
-- the lengths in the headers fit 32 bits, there are fewer than 2^64 rounds, and the file has fewer
-- than 2^64 bytes when the run has returned, PcapReader opens it, delivers one record for each
-- counted packet, which are the packets that Npcap handed over first, cut to the lengths that the
-- policy decides, and ends without an error. So it is too when no packet has come.
pub run-IsReread :
    (clocks : Clocks) (open_live : OpenLive) (config : CaptureOptions)
    (policy_config : PolicyConfig) (path : Bytes) (stream : OutStream) (h : Handle) (ran : Ran)
    → (opening open_live config).0 ≡ some h
    → try_map_datalink h.datalink ≡ some ethernet
    → stream.content ≡ []
    → ((n : ℕ) → stream.accepts n ≡ true)
    → length h.rounds < 2 ^ 64
    → HeadersFit h.rounds
    → 0 < output_snaplen config
    → output_snaplen config < 2 ^ 32
    → run true clocks open_live config policy_config path (some stream) ≡ returned ran
    → ((out : OutStream) → ran.output ≡ some out → length out.content < 2 ^ 64)
    → let ps = packets (new_session clocks config h ethernet) h.rounds in
      let es = cut (new_policy policy_config) (take ran.result.stats.packets_total ps) in
      (out : OutStream) × (ran.output ≡ some out)
      × IsReread clocks es out
      × (length es ≡ ran.result.stats.packets_total)
run-IsReread clocks open_live config policy_config path stream h ran opens maps empty a rounds fits
      pos small back whole =
    let s = new_session clocks config h ethernet in
    let ps = packets s h.rounds in
    let n = ran.result.stats.packets_total in
    let es = cut (new_policy policy_config) (take n ps) in
    let (out, there, content, most) =
      subst (Leaves (live_file clocks config policy_config stream h ethernet) (length ps)) back (
        run-Leaves clocks open_live config policy_config path stream h ethernet opens maps a
          rounds) in
    (
      out,
      there,
      reread_lem clocks (output_snaplen config) es out
          (content
            ∙ ap
                (λ bs.
                  bs ++ (header_bytes (output_snaplen config) ethernet ++ body clocks.system es))
                empty)
          pos small
          (cut-AllFit (new_policy policy_config) n ps (packets-PacketsFit s h.rounds fits))
          (whole out there),
      length-cut (new_policy policy_config) n ps most,
    )
