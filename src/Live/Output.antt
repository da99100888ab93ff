-- ===== src/Live/Output.antt =====
-- What a live capture leaves in its output file.
use pcap_constrictor_win_pac.Base.{
  ℕ, suc, ◌+◌, ◌^◌, ◌<◌, ◌≤◌, ◌≡◌, refl, ap, ap₂, subst, sym, ◌∙◌, true, Option, none, some, List,
  [], ◌∷◌, ◌++◌, take, length, if◌then◌else◌, Bytes, arith,
}
use mathlib.Core.List.{append-nil, append_assoc}
use pcap_constrictor_win_pac.Live.Books.{onward, state}
use pcap_constrictor_win_pac.Live.Liveness.{packets_total-count_packet}
use pcap_constrictor_win_pac.Live.Loop.{
  Session, Capture, Progress, live_packet, count_packet, iteration, capture_loop,
}
use pcap_constrictor_win_pac.Live.Turns.{
  is_delivery, Delivers, decide, write, Turn, flagged, counted, timed, idle, broken, refused,
  unwritten, captured, iteration-Turn,
}
use pcap_constrictor_win_pac.Live.Types.{PcapPktHdr, NextAnswer, Round}
use pcap_constrictor_win_pac.Pcap.Layout.{Accepts, packet_bytes, appended, write_packet_lem}
use pcap_constrictor_win_pac.Pcap.Whole.{Emitted, body}
use pcap_constrictor_win_pac.Pcap.Writer.{ok, PcapWriter}
use pcap_constrictor_win_pac.Policy.Bounds.{evaluate_fits}
use pcap_constrictor_win_pac.Policy.Decide.{LiveCapturePolicy, evaluate}
use pcap_constrictor_win_pac.Policy.Packet.{CapturedPacket}

-- The packet that an answer hands over.
abbrev pub handed_over : Session → NextAnswer → Option CapturedPacket
handed_over s answer =
    if is_delivery answer
    then (elim answer.header [
      | none ↦ none
      | some h ↦ elim answer.bytes [ none ↦ none | some memory ↦ some (live_packet s h memory) ]
    ])
    else none

abbrev pub prepend : Option CapturedPacket → List CapturedPacket → List CapturedPacket
prepend none ps = ps
prepend (some p) ps = p ∷ ps

-- All packets that Npcap hands over.
abbrev pub packets : Session → List Round → List CapturedPacket
packets s [] = []
packets s (r ∷ rounds) = prepend (handed_over s r.answer) (packets s rounds)

-- Packets with the lengths that the policy decides for them, one after another.
abbrev pub cut : LiveCapturePolicy → List CapturedPacket → Emitted
cut policy [] = []
cut policy (p ∷ ps) =
    let (next, decision) = evaluate policy p in (p, decision.output_len) ∷ cut next ps

-- From `c` on, as many packets have been appended as counted, the first of those handed over.
pub record Wrote (s : Session) (c : Capture) (ps : List CapturedPacket) (end : Capture)
    : Type 0 where
  pub n : ℕ
  pub there : n ≤ length ps
  pub total : end.stats.packets_total ≡ c.stats.packets_total + n
  pub content :
      end.writer.output.content
      ≡ c.writer.output.content ++ body s.clocks.system (cut c.policy (take n ps))

-- The header has been written, and the stream takes all data.
pub record IsReady (c : Capture) : Type 0 where
  pub header_there : c.writer.global_header_written ≡ true
  pub accepts : Accepts c.writer

nothing-Wrote :
    (s : Session) (c end : Capture) (ps : List CapturedPacket)
    → end.stats.packets_total ≡ c.stats.packets_total
    → end.writer.output.content ≡ c.writer.output.content
    → Wrote s c ps end
nothing-Wrote s c end ps a b = record {
  n = 0;
  there = omega arith;
  total = omega arith;
  content = b ∙ sym (append-nil c.writer.output.content);
}

-- The bytes of a packet that is decided and written.
abbrev cut_bytes : Session → Capture → PcapPktHdr → (ℕ → ℕ) → Bytes
cut_bytes s c h memory =
    packet_bytes s.clocks.system (live_packet s h memory) (decide s c h memory).1.output_len

more-Wrote :
    (s : Session) (c next : Capture) (p : CapturedPacket) (ps : List CapturedPacket) (end : Capture)
    → next.stats.packets_total ≡ suc c.stats.packets_total
    → next.writer.output.content
      ≡ c.writer.output.content ++ packet_bytes s.clocks.system p (evaluate c.policy p).1.output_len
    → next.policy ≡ (evaluate c.policy p).0
    → Wrote s next ps end
    → Wrote s c (p ∷ ps) end
more-Wrote s c next p ps end more here policy rest = record {
  n = suc rest.n;
  there = ground (arith, rest.there);
  total = omega (arith, rest.total);
  content =
      rest.content
      ∙ ap₂ (λ bs q. bs ++ body s.clocks.system (cut q (take rest.n ps))) here policy
      ∙ append_assoc c.writer.output.content _ _;
}

write_lem :
    (s : Session) (c : Capture) (h : PcapPktHdr) (memory : ℕ → ℕ)
    → IsReady c
    → write s c h memory ≡ ok (appended c.writer (cut_bytes s c h memory))
write_lem s c h memory ready =
    write_packet_lem s.clocks.system c.writer (live_packet s h memory)
      (decide s c h memory).1.output_len ready.accepts
      (evaluate_fits c.policy (live_packet s h memory)).0
    ∙ rw ready.header_there refl

Delivers-handed_over :
    (s : Session) (answer : NextAnswer) (h : PcapPktHdr) (memory : ℕ → ℕ)
    → Delivers answer h memory
    → handed_over s answer ≡ some (live_packet s h memory)
Delivers-handed_over s answer h memory (a, b, e, f) = rw (a, b, e, f) refl

Turn-Wrote :
    (s : Session) (c : Capture) (r : Round) (rounds : List Round)
    → IsReady c
    → c.stats.packets_total + 1 < 2 ^ 64
    → ((next : Capture)
        → next.stats.packets_total ≤ c.stats.packets_total + 1
        → IsReady next
        → Wrote s next (packets s rounds) (state (capture_loop s next rounds)))
    → (out : Progress) → Turn s c r out
    → Wrote s c (packets s (r ∷ rounds)) (state (onward s rounds out))
Turn-Wrote s c r rounds ready small ih _ (flagged e) = nothing-Wrote s c _ _ refl refl
Turn-Wrote s c r rounds ready small ih _ (counted m n) = nothing-Wrote s c _ _ refl refl
Turn-Wrote s c r rounds ready small ih _ (timed e) = nothing-Wrote s c _ _ refl refl
Turn-Wrote s c r rounds ready small ih _ (broken e) = nothing-Wrote s c _ _ refl refl
Turn-Wrote s c r rounds ready small ih _ (refused text n) = nothing-Wrote s c _ _ refl refl
Turn-Wrote s c r rounds ready small ih _ (unwritten h memory del e) =
    let w = write_lem s c h memory ready in cc
Turn-Wrote s c r rounds ready small ih _ (idle slept le e) =
    let none_handed : handed_over s r.answer ≡ none = rw e refl in
    let rest =
      ih (record c { slept_ms = slept }) (omega arith)
        (record { header_there = ready.header_there; accepts = ready.accepts }) in
    rw none_handed
      (record { n = rest.n; there = rest.there; total = rest.total; content = rest.content })
Turn-Wrote s c r rounds ready small ih _ (captured h memory w below del e) =
    let done : w ≡ appended c.writer (cut_bytes s c h memory) = cc (write_lem s c h memory ready) in
    let here = Delivers-handed_over s r.answer h memory del in
    let one_more = packets_total-count_packet c.stats h.caplen (decide s c h memory).1 small in
    let next : Capture = record c {
      writer = w;
      policy = (decide s c h memory).0;
      stats = count_packet c.stats h.caplen (decide s c h memory).1;
    } in
    rw here (
      more-Wrote s c next (live_packet s h memory) _ _ one_more
        (ap (λ (x : PcapWriter). x.output.content) done) refl
        (ih next (omega (arith, one_more)) (record {
          header_there = ap (λ (x : PcapWriter). x.global_header_written) done ∙ ready.header_there;
          accepts = subst Accepts (sym done) ready.accepts;
        })))

pub capture_loop-Wrote :
    (s : Session) (c : Capture) (rounds : List Round)
    → IsReady c
    → c.stats.packets_total + length rounds < 2 ^ 64
    → Wrote s c (packets s rounds) (state (capture_loop s c rounds))
unfolding capture_loop
capture_loop-Wrote s c [] ready small = nothing-Wrote s c c [] refl refl
capture_loop-Wrote s c (r ∷ rounds) ready small =
    Turn-Wrote s c r rounds ready (omega arith)
      (λ next le again. capture_loop-Wrote s next rounds again (omega arith)) (iteration s c r)
      (iteration-Turn s c r)
