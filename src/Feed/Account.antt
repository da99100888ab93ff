-- ===== src/Feed/Account.antt =====
-- The books of an offline run.
use pcap_constrictor_win_pac.Base.{
  ℕ, zero, suc, ◌+◌, ◌*◌, ◌^◌, ◌<◌, ◌≤◌, ◌≡◌, refl, ap, sym, ◌∙◌, Option, none, some, Bytes, length,
  arith, inl, inr, ◌⊎◌, length-append, ◌++◌,
}
use pcap_constrictor_win_pac.Feed.Run.{
  Feed, to_packet, count, feed_record, Ending, finished, caught, feed_loop,
}
use pcap_constrictor_win_pac.Feed.Types.{CaptureStats, add64, accumulate_decision_stats, writing}
use pcap_constrictor_win_pac.Pcap.Bounds.{Outcome, at_end, packet, failed, read_next-Outcome}
use pcap_constrictor_win_pac.Pcap.Reader.{PcapReader}
use pcap_constrictor_win_pac.Pcap.Types.{SystemClock, PcapPacketRecord}
use pcap_constrictor_win_pac.Pcap.Writer.{Written, ok, threw, write_failed, write_packet}
use pcap_constrictor_win_pac.Pcap.Failure.{write_packet-Accepted, Written-cases}
use pcap_constrictor_win_pac.Policy.Bounds.{evaluate_fits}
use pcap_constrictor_win_pac.Policy.Decide.{LiveCaptureDecision, evaluate}
use pcap_constrictor_win_pac.Policy.Packet.{safe_captured_len}
use pcap_constrictor_win_pac.Span.{of_list}

-- The counters against the reader's position.
pub record Balanced (s : CaptureStats) (index offset : ℕ) : Type 0 where
  pub every_packet_written : s.packets_written ≡ s.packets_total
  pub every_packet_counted : s.packets_total ≡ index
  pub output_within_input : s.bytes_output ≤ s.bytes_input
  pub input_accounted : 24 + 16 * s.packets_total + s.bytes_input ≡ offset
  pub at_most_one_reason :
      s.tls_appdata_constricted + s.tls_fallback + s.quic_long_header + s.quic_short_matched
        + s.quic_short_constricted + s.quic_fallback
      ≤ s.packets_total

count-Balanced :
    (s : CaptureStats) (r : PcapPacketRecord) (d : LiveCaptureDecision) (index offset : ℕ)
    → Balanced s index offset
    → d.output_len ≤ r.captured_length
    → offset + 16 + r.captured_length < 2 ^ 64
    → Balanced (count s r d) (index + 1) (offset + 16 + r.captured_length)
unfolding count accumulate_decision_stats add64
count-Balanced s r d index offset b le fits = ground (
  arith, b.every_packet_written, b.every_packet_counted, b.output_within_input, b.input_accounted,
  b.at_most_one_reason,
)

Balanced-at :
    {s t : CaptureStats} {i j o q : ℕ} → t ≡ s → j ≡ i → q ≡ o → Balanced s i o → Balanced t j q
Balanced-at a b c books = rw (a, b, c) books

output_within :
    (clock : SystemClock) (reader : PcapReader) (r : PcapPacketRecord) (n : ℕ)
    → n ≤ safe_captured_len (to_packet clock reader r).packet
    → n ≤ r.captured_length
unfolding to_packet safe_captured_len of_list
output_within clock reader r n le = ground arith

-- What one iteration does with a record.
pub feed_record_cases {ℓ} :
    (clock : SystemClock) (f : Feed) (r : PcapPacketRecord)
    → length r.bytes ≡ r.captured_length
    → (P : Written Feed → Type ℓ) → P (threw write_failed)
    → ((next : Feed) (d : LiveCaptureDecision)
        → next.reader ≡ f.reader
        → next.stats ≡ count f.stats r d
        → d.output_len ≤ r.captured_length
        → P (ok next))
    → P (feed_record clock f r)
unfolding feed_record
feed_record_cases clock f r whole P bad good =
    let p = to_packet clock f.reader r in
    let d = (evaluate f.policy p).1 in
    let fits = evaluate_fits f.policy p in
    elim (Written-cases (write_packet clock f.writer p d.output_len)
      (write_packet-Accepted clock f.writer p d.output_len fits.0)) [
        | inl e ↦ rw (e, feed_record) bad
        | inr (w, e) ↦
            rw (e, feed_record)
              (good _ d refl refl (output_within clock f.reader r d.output_len fits.0))
      ]

-- A feed in the middle of its file.
pub record Standing (f : Feed) (unread : Bytes) : Type 0 where
  pub no_error : f.reader.error ≡ none
  pub rest : f.reader.stream ≡ some unread
  pub to_the_end : f.reader.next_input_offset + length unread ≡ f.reader.file_size
  pub addressable : f.reader.file_size < 2 ^ 64
  pub balanced : Balanced f.stats f.reader.next_packet_index f.reader.next_input_offset

-- The books when the loop has ended.
pub record Closed (size : ℕ) (r : Feed × Ending) : Type 0 where
  pub index : ℕ
  pub offset : ℕ
  pub balanced : Balanced r.0.stats index offset
  pub within : offset ≤ size
  pub ends : (r.1 ≡ finished) ⊎ (r.1 ≡ caught (writing write_failed))
  pub complete : r.1 ≡ finished → r.0.reader.error ≡ none → offset ≡ size

-- The rest of an iteration, after ReadNext.
abbrev pub iterate : SystemClock → ℕ → Feed → PcapReader × Option PcapPacketRecord → Feed × Ending
iterate clock fuel f (reader, found) =
    let behind = record f { reader = reader } in
    elim found [
      | none ↦ (behind, finished)
      | some r ↦ elim (feed_record clock behind r) [
        | threw e ↦ (behind, caught (writing e))
        | ok next ↦ feed_loop clock fuel next
      ]
    ]

iterate-Closed :
    (clock : SystemClock) (fuel : ℕ) (f : Feed) (unread : Bytes)
    → Standing f unread
    → length unread < suc fuel
    → ((next : Feed) (tail : Bytes)
        → Standing next tail
        → length tail < fuel
        → Closed next.reader.file_size (feed_loop clock fuel next))
    → (out : PcapReader × Option PcapPacketRecord) → Outcome f.reader unread out
    → Closed f.reader.file_size (iterate clock fuel f out)
iterate-Closed clock fuel f unread s enough ih _ (at_end empty) = record {
  index = f.reader.next_packet_index;
  offset = f.reader.next_input_offset;
  balanced = s.balanced;
  within = ground (arith, s.to_the_end);
  ends = inl refl;
  complete = λ _ _. ground (arith, s.to_the_end);
}
iterate-Closed clock fuel f unread s enough ih _ (failed e after h damage) = record {
  index = f.reader.next_packet_index;
  offset = f.reader.next_input_offset;
  balanced = s.balanced;
  within = ground (arith, s.to_the_end);
  ends = inl refl;
  complete = λ _ none. ground arith;
}
iterate-Closed clock fuel f unread s enough ih _
      (packet raw bytes tail after r split sixteen header exact kept from placed behind orig index
        next_index clean here order same whole) =
    let cut : length unread ≡ 16 + (r.captured_length + length tail) =
      ground (arith, length-append raw (bytes ++ tail), length-append bytes tail) in
    let moved : after.next_input_offset ≡ f.reader.next_input_offset + 16 + r.captured_length =
      ground (arith, s.to_the_end) in
    feed_record_cases clock (record f { reader = after }) r (ground arith)
      (λ w. Closed f.reader.file_size (elim w [
        | threw e ↦ (record f { reader = after }, caught (writing e))
        | ok next ↦ feed_loop clock fuel next
      ]))
      (record {
        index = f.reader.next_packet_index;
        offset = f.reader.next_input_offset;
        balanced = s.balanced;
        within = ground (arith, s.to_the_end);
        ends = inr refl;
        complete = λ h. ground arith;
      })
      (λ next d same_reader counted le. rw (sym (ap (λ x. x.file_size) same_reader ∙ same)) (
        ih next tail
          (record {
            no_error = ap (λ x. x.error) same_reader ∙ clean;
            rest = ap (λ x. x.stream) same_reader ∙ here;
            to_the_end = ground (
              arith,
              ap (λ x. x.next_input_offset) same_reader,
              ap (λ x. x.file_size) same_reader,
            );
            addressable = ground (arith, ap (λ x. x.file_size) same_reader, s.addressable);
            balanced =
                Balanced-at counted (ap (λ x. x.next_packet_index) same_reader ∙ next_index)
                  (ap (λ x. x.next_input_offset) same_reader ∙ moved)
                  (count-Balanced f.stats r d _ _ s.balanced le
                    (ground (arith, s.to_the_end, s.addressable)));
          })
          (omega arith)))

pub feed_loop-Closed :
    (clock : SystemClock) (fuel : ℕ) (f : Feed) (unread : Bytes)
    → Standing f unread
    → length unread < fuel
    → Closed f.reader.file_size (feed_loop clock fuel f)
unfolding feed_loop
feed_loop-Closed clock zero f unread s enough = ground arith
feed_loop-Closed clock (suc fuel) f unread s enough =
    iterate-Closed clock fuel f unread s enough (feed_loop-Closed clock fuel) _
      (read_next-Outcome f.reader unread s.no_error s.rest s.to_the_end)
