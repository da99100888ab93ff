-- ===== src/Pcap/Time.antt =====
-- The time of a packet through PcapWriter and PcapReader.
use pcap_constrictor_win_pac.Base.{ℕ, ◌+◌, ◌*◌, ◌/◌, ◌^◌, ◌<◌, ◌≡◌, ap, sym, ◌∙◌, arith}
use native.Mathlib.Nat.{mul-div_cancel}
use pcap_constrictor_win_pac.Pcap.Reader.{PcapReader}
use pcap_constrictor_win_pac.Pcap.RoundTrip.{reread}
use pcap_constrictor_win_pac.Pcap.Types.{SystemClock, timestamp, microsecond}
use pcap_constrictor_win_pac.Pcap.Writer.{micros, ts_sec, ts_usec}
use pcap_constrictor_win_pac.Policy.Packet.{CapturedPacket}

tick_positive : (clock : SystemClock) → 0 < clock.tick_ns
tick_positive clock = grind (arith, clock.divides)

-- A whole number of microseconds is a whole number of ticks.
microseconds_in_ticks :
    (clock : SystemClock) (m : ℕ) → m * 1000 / clock.tick_ns ≡ m * clock.ticks_per_us
microseconds_in_ticks clock m =
    ap (λ k. k / clock.tick_ns) (ap (λ k. m * k) (sym clock.divides) ∙ grind arith)
    ∙ mul-div_cancel (m * clock.ticks_per_us) (tick_positive clock)

ticks_in_microseconds :
    (clock : SystemClock) (m : ℕ) → m * clock.ticks_per_us * clock.tick_ns / 1000 ≡ m
ticks_in_microseconds clock m =
    ap (λ k. k / 1000) (grind arith ∙ ap (λ k. m * k) clock.divides)
    ∙ mul-div_cancel m (omega arith)

-- The time that PcapReader gives a packet that PcapWriter has written is the packet's time to the
-- microsecond, whatever the period of the system clock, for seconds that fit 32 bits: written
-- again, it is the same time.
pub micros-timestamp :
    (clock : SystemClock) (r : PcapReader) (p : CapturedPacket) (incl_len : ℕ)
    → micros clock p / 1000000 < 2 ^ 32
    → micros clock
        (record p { timestamp = timestamp clock microsecond (reread clock r p incl_len) })
      ≡ micros clock p
unfolding micros timestamp ts_sec ts_usec
micros-timestamp clock r p n fits =
    let m = micros clock p in
    let whole : ts_sec clock p * 1000000000 + ts_usec clock p * 1000 ≡ m * 1000 = omega arith in
    ap (λ k. k / clock.tick_ns * clock.tick_ns / 1000) whole
    ∙ ap (λ k. k * clock.tick_ns / 1000) (microseconds_in_ticks clock m)
    ∙ ticks_in_microseconds clock m
