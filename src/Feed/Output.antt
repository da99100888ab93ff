-- ===== src/Feed/Output.antt =====
-- What an offline run leaves in its output file.
use pcap_constrictor_win_pac.Base.{
  ℕ, zero, suc, ◌≡◌, refl, ap, sym, ◌∙◌, Bool, true, Option, none, some, [], ◌∷◌, ◌++◌,
  if◌then◌else◌, Bytes, arith, Bool-cases, inl, inr, ◌⊎◌,
}
use mathlib.Core.List.{append-nil, append_assoc}
use pcap_constrictor_win_pac.Decode.Types.{ethernet}
use pcap_constrictor_win_pac.Feed.Account.{iterate}
use pcap_constrictor_win_pac.Feed.Run.{
  Feed, to_packet, count, feed_record, Ending, caught, feed_loop, fuel_for, start, run_opened, run,
  closed_reader, output_snaplen, open_failed,
}
use pcap_constrictor_win_pac.Feed.Types.{writing}
use pcap_constrictor_win_pac.Pcap.Layout.{
  Accepts, header_bytes, packet_bytes, written, write_packet_lem,
}
use pcap_constrictor_win_pac.Pcap.Reader.{PcapReader, InputFile, open_reader, read_next}
use pcap_constrictor_win_pac.Pcap.Types.{SystemClock, PcapPacketRecord}
use pcap_constrictor_win_pac.Pcap.Whole.{Emitted, body}
use pcap_constrictor_win_pac.Pcap.Writer.{PcapWriter, OutStream, ok, threw, new_writer}
use pcap_constrictor_win_pac.Policy.Bounds.{evaluate_fits}
use pcap_constrictor_win_pac.Policy.Config.{PolicyConfig}
use pcap_constrictor_win_pac.Policy.Decide.{LiveCapturePolicy, evaluate, new_policy}
use pcap_constrictor_win_pac.Policy.Packet.{CapturedPacket}

-- The packets of a file with the lengths that the policy decides for them, one after another:
-- reading and deciding alone, with no writer and no statistics.
abbrev pub decided : SystemClock → ℕ → LiveCapturePolicy → PcapReader → Emitted
decided clock zero policy reader = []
decided clock (suc fuel) policy reader =
    let (after, found) = read_next reader in
    elim found [
      | none ↦ []
      | some r ↦
          let (next, decision) = evaluate policy (to_packet clock after r) in
          (to_packet clock after r, decision.output_len) ∷ decided clock fuel next after
    ]

-- A file with these packets: nothing at all if there are none.
abbrev pub file_bytes : SystemClock → ℕ → Emitted → Bytes
file_bytes clock snaplen [] = []
file_bytes clock snaplen ((p, n) ∷ es) = header_bytes snaplen ethernet ++ body clock ((p, n) ∷ es)

-- What is still to be written.
abbrev to_come : SystemClock → PcapWriter → Emitted → Bytes
to_come clock w es =
    if w.global_header_written then body clock es else file_bytes clock w.snaplen es

next_cases :
    (out : PcapReader × Option PcapPacketRecord)
    → ((reader : PcapReader) × (out ≡ (reader, none)))
      ⊎ ((reader : PcapReader) × (r : PcapPacketRecord) × (out ≡ (reader, some r)))
next_cases (reader, none) = inl (reader, refl)
next_cases (reader, some r) = inr (reader, r, refl)

-- A record that has been written.
abbrev fed : SystemClock → Feed → PcapPacketRecord → Feed
fed clock f r =
    let p = to_packet clock f.reader r in
    let (policy, decision) = evaluate f.policy p in
    record {
      reader = f.reader;
      writer = written clock f.writer p decision.output_len;
      policy = policy;
      stats = count f.stats r decision;
    }

feed_record_lem :
    (clock : SystemClock) (f : Feed) (r : PcapPacketRecord)
    → Accepts f.writer
    → feed_record clock f r ≡ ok (fed clock f r)
unfolding feed_record
feed_record_lem clock f r a =
    let p = to_packet clock f.reader r in
    let d = evaluate f.policy p in
    let e = write_packet_lem clock f.writer p d.1.output_len a (evaluate_fits f.policy p).0 in
    rw (e, feed_record) refl

written-Accepts :
    (clock : SystemClock) (w : PcapWriter) (p : CapturedPacket) (n : ℕ)
    → Accepts w
    → Accepts (written clock w p n)
written-Accepts clock w p n a = elim (Bool-cases w.global_header_written) [
  | inl e ↦ rw e a
  | inr e ↦ rw e a
]

written-link :
    (clock : SystemClock) (w : PcapWriter) (p : CapturedPacket) (n : ℕ)
    → w.link_type ≡ ethernet
    → (written clock w p n).link_type ≡ ethernet
written-link clock w p n link = ground arith

to_come_nil :
    (clock : SystemClock) (w : PcapWriter)
    → w.output.content ≡ w.output.content ++ to_come clock w []
to_come_nil clock w = elim (Bool-cases w.global_header_written) [
  | inl e ↦ rw e (sym (append-nil w.output.content))
  | inr e ↦ rw e (sym (append-nil w.output.content))
]

-- One packet now, and the others afterwards.
to_come-written :
    (clock : SystemClock) (w : PcapWriter) (p : CapturedPacket) (n : ℕ) (es : Emitted)
    → w.link_type ≡ ethernet
    → (written clock w p n).output.content ++ to_come clock (written clock w p n) es
      ≡ w.output.content ++ to_come clock w ((p, n) ∷ es)
to_come-written clock w p n es link = elim (Bool-cases w.global_header_written) [
  | inl e ↦ rw e (append_assoc w.output.content (packet_bytes clock p n) (body clock es))
  | inr e ↦ simp (e, link, append_assoc)
]

feed_loop-iterate :
    (clock : SystemClock) (fuel : ℕ) (f : Feed) (out : PcapReader × Option PcapPacketRecord)
    → read_next f.reader ≡ out
    → feed_loop clock (suc fuel) f ≡ iterate clock fuel f out
unfolding feed_loop
feed_loop-iterate clock fuel f out e = ap (iterate clock fuel f) e

feed_loop_step :
    (clock : SystemClock) (fuel : ℕ) (f : Feed) (reader : PcapReader) (r : PcapPacketRecord)
    → read_next f.reader ≡ (reader, some r)
    → Accepts f.writer
    → feed_loop clock (suc fuel) f
      ≡ feed_loop clock fuel (fed clock (record f { reader = reader }) r)
feed_loop_step clock fuel f reader r e a =
    feed_loop-iterate clock fuel f _ e
    ∙ ap
        (λ w. elim w [
          | threw why ↦ (record f { reader = reader }, caught (writing why))
          | ok next ↦ feed_loop clock fuel next
        ])
        (feed_record_lem clock (record f { reader = reader }) r a)

decided_step :
    (clock : SystemClock) (fuel : ℕ) (policy : LiveCapturePolicy) (reader after : PcapReader)
    (r : PcapPacketRecord)
    → read_next reader ≡ (after, some r)
    → decided clock (suc fuel) policy reader
      ≡ (to_packet clock after r, (evaluate policy (to_packet clock after r)).1.output_len)
        ∷ decided clock fuel (evaluate policy (to_packet clock after r)).0 after
decided_step clock fuel policy reader after r e = rw (e, decided, e) refl

decided_end :
    (clock : SystemClock) (fuel : ℕ) (policy : LiveCapturePolicy) (reader after : PcapReader)
    → read_next reader ≡ (after, none)
    → decided clock (suc fuel) policy reader ≡ []
decided_end clock fuel policy reader after e = rw (e, decided) refl

-- On a stream that accepts all data, the loop appends the packets that are decided.
feed_loop_output :
    (clock : SystemClock) (fuel : ℕ) (f : Feed)
    → Accepts f.writer
    → f.writer.link_type ≡ ethernet
    → (feed_loop clock fuel f).0.writer.output.content
      ≡ f.writer.output.content ++ to_come clock f.writer (decided clock fuel f.policy f.reader)
unfolding feed_loop
feed_loop_output clock zero f a link = to_come_nil clock f.writer
feed_loop_output clock (suc fuel) f a link = elim (next_cases (read_next f.reader)) [
  | inl (reader, e) ↦
      ap (λ (o : Feed × Ending). o.0.writer.output.content) (feed_loop-iterate clock fuel f _ e)
      ∙ to_come_nil clock f.writer
      ∙ ap (λ es. f.writer.output.content ++ to_come clock f.writer es)
          (sym (decided_end clock fuel f.policy f.reader reader e))
  | inr (reader, r, e) ↦
      ap (λ (o : Feed × Ending). o.0.writer.output.content)
        (feed_loop_step clock fuel f reader r e a)
      ∙ feed_loop_output clock fuel (fed clock (record f { reader = reader }) r)
          (written-Accepts clock f.writer _ _ a) (written-link clock f.writer _ _ link)
      ∙ to_come-written clock f.writer _ _ _ link
      ∙ ap (λ es. f.writer.output.content ++ to_come clock f.writer es)
          (sym (decided_step clock fuel f.policy f.reader reader r e))
]

run_opened_output :
    (clock : SystemClock) (reader : PcapReader) (stream : OutStream) (config : PolicyConfig)
    → (run_opened clock reader (some stream) config).1
      ≡ some (feed_loop clock (fuel_for reader) (start reader stream config)).0.writer.output
unfolding run_opened
run_opened_output clock reader stream config = refl

-- What a run writes, for an input file that opens and an output stream that accepts all data: the
-- stream gains the global header, with the snap length of the input, and then every packet of the
-- input cut to the length that the policy decides when it is shown the packets one after another;
-- it gains nothing if there is no packet.
pub run_output :
    (clock : SystemClock) (input : InputFile) (stream : OutStream) (config : PolicyConfig)
    (reader : PcapReader)
    → open_reader closed_reader input ≡ (reader, true)
    → ((n : ℕ) → stream.accepts n ≡ true)
    → (out : OutStream) × ((run clock input (some stream) config).1 ≡ some out)
      × (out.content
          ≡ stream.content
            ++ file_bytes clock
                (output_snaplen reader config)
                (decided clock (fuel_for reader) (new_policy config) reader))
unfolding run start new_writer new_policy
run_output clock input stream config reader opens a = (
  (feed_loop clock (fuel_for reader) (start reader stream config)).0.writer.output,
  ap
        (λ (o : PcapReader × Bool).
          (if o.1
            then run_opened clock o.0 (some stream) config
            else (open_failed o.0, some stream)).1)
        opens
      ∙ run_opened_output clock reader stream config,
  feed_loop_output clock (fuel_for reader) (start reader stream config) a refl,
)
