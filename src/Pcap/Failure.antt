-- ===== src/Pcap/Failure.antt =====
-- The exceptions of PcapWriter.
use pcap_constrictor_win_pac.Base.{
  ℕ, ◌≤◌, ◌≡◌, ◌≢◌, false, ltb, Bytes, arith, Bool-cases, inl, inr, ◌⊎◌, refl,
}
use pcap_constrictor_win_pac.Pcap.Types.{SystemClock}
use pcap_constrictor_win_pac.Pcap.Writer.{
  Written, ◌>>=◌, ok, threw, PcapWriter, write_failed, incl_len_exceeds, write_bytes, write_le16,
  write_le32, write_header_fields, write_global_header, write_fields, write_packet,
}
use pcap_constrictor_win_pac.Policy.Packet.{CapturedPacket, safe_captured_len}

-- No refusal of the length: at most the stream fails.
abbrev pub Accepted {ℓ} : {A : Type ℓ} → Written A → Type ℓ
Accepted m = m ≢ threw incl_len_exceeds

bind-Accepted {ℓ κ} :
    {A : Type ℓ} {B : Type κ} (m : Written A) (f : A → Written B)
    → Accepted m
    → ((a : A) → Accepted (f a))
    → Accepted (m >>= f)
bind-Accepted (ok a) f first rest = rest a
bind-Accepted (threw e) f first rest = ground arith

write_bytes-Accepted : (w : PcapWriter) (bytes : Bytes) → Accepted (write_bytes w bytes)
unfolding write_bytes
write_bytes-Accepted w bytes = ground arith

write_header_fields-Accepted : (w : PcapWriter) → Accepted (write_header_fields w)
unfolding write_header_fields write_le16 write_le32
write_header_fields-Accepted w = bind-Accepted _ _ (write_bytes-Accepted w _) (λ a.
    bind-Accepted _ _ (write_bytes-Accepted a _) (λ b.
      bind-Accepted _ _ (write_bytes-Accepted b _) (λ c.
        bind-Accepted _ _ (write_bytes-Accepted c _) (λ d.
          bind-Accepted _ _ (write_bytes-Accepted d _) (λ e.
            bind-Accepted _ _ (write_bytes-Accepted e _)
              (λ f. bind-Accepted _ _ (write_bytes-Accepted f _) (λ g. ground arith)))))))

write_global_header-Accepted : (w : PcapWriter) → Accepted (write_global_header w)
unfolding write_global_header
write_global_header-Accepted w = elim (Bool-cases w.global_header_written) [
  | inl e ↦ ground arith
  | inr e ↦ ground (arith, write_header_fields-Accepted w)
]

write_fields-Accepted :
    (clock : SystemClock) (w : PcapWriter) (p : CapturedPacket) (n : ℕ)
    → Accepted (write_fields clock w p n)
unfolding write_fields write_le32
write_fields-Accepted clock w p n = bind-Accepted _ _ (write_global_header-Accepted w) (λ a.
    bind-Accepted _ _ (write_bytes-Accepted a _) (λ b.
      bind-Accepted _ _ (write_bytes-Accepted b _) (λ c.
        bind-Accepted _ _ (write_bytes-Accepted c _)
          (λ d. bind-Accepted _ _ (write_bytes-Accepted d _) (λ e. write_bytes-Accepted e _)))))

-- A packet whose length is within the captured bytes is never refused: only the stream can fail.
pub write_packet-Accepted :
    (clock : SystemClock) (w : PcapWriter) (p : CapturedPacket) (incl_len : ℕ)
    → incl_len ≤ safe_captured_len p.packet
    → Accepted (write_packet clock w p incl_len)
unfolding write_packet
write_packet-Accepted clock w p n le =
    let fits : ltb (safe_captured_len p.packet) n ≡ false = ground arith in
    rw fits (write_fields-Accepted clock w p n)

pub Written-cases {ℓ} :
    {A : Type ℓ} (m : Written A) → Accepted m → (m ≡ threw write_failed) ⊎ ((a : A) × (m ≡ ok a))
Written-cases (ok a) accepted = inr (a, refl)
Written-cases (threw write_failed) accepted = inl refl
Written-cases (threw incl_len_exceeds) accepted = ground arith
