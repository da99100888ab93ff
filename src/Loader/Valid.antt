-- ===== src/Loader/Valid.antt =====
-- The configurations that ConfigLoader can return.
use pcap_constrictor_win_pac.Base.{
  ℕ, ◌^◌, ◌<◌, ◌≤◌, ◌≡◌, refl, subst, ◌-◌, true, Option, none, some, List, [], ◌∷◌, Bytes, arith,
  Option-cases, inl, inr,
}
use pcap_constrictor_win_pac.Loader.Assign.{
  ConfigMessage, Assigned, assigned, invalid, assign_parsed, assign_capture_integer, assign_output,
  assign_capture, assign_general, assign_policy, assign_tls_integer, assign_tls,
  assign_quic_integer, assign_quic, assign_stats, assign_value,
}
use pcap_constrictor_win_pac.Loader.Text.{to_lower, pieces}
use pcap_constrictor_win_pac.Loader.Values.{
  parse_unsigned, parse_uint32, parse_uint64, parse_port, parse_all, parse_ports,
}
use pcap_constrictor_win_pac.Policy.Config.{PolicyConfig, final_only, TlsAppDataContinuationPolicy}

pub data AllPorts : List ℕ → Type 0 where
  no_port : AllPorts []
  one_more : {n : ℕ} {ns : List ℕ} → n < 65536 → AllPorts ns → AllPorts (n ∷ ns)

-- Every number fits its type, and the continuation policy is the supported one.
pub record IsTyped (c : PolicyConfig) : Type 0 where
  pub min_saved : c.general.min_saved_bytes_per_packet < 2 ^ 32
  pub snaplen : c.capture.default_snaplen < 2 ^ 32
  pub capture_len : c.capture.max_capture_len < 2 ^ 32
  pub packets : c.capture.max_packets < 2 ^ 64
  pub duration : c.capture.duration_sec < 2 ^ 64
  pub timeout : c.capture.read_timeout_ms < 2 ^ 32
  pub tls_ports : AllPorts c.tls.ports
  pub keep_record : c.tls.app_data_keep_record_bytes < 2 ^ 32
  pub keep_continuation : c.tls.app_data_continuation_keep_bytes < 2 ^ 32
  pub supported : c.tls.app_data_continuation_policy ≡ final_only
  pub quic_ports : AllPorts c.quic.ports
  pub keep_short : c.quic.short_header_keep_packet_bytes < 2 ^ 32

parse_unsigned_bound :
    (greatest : ℕ) (value : Bytes) {n : ℕ} → parse_unsigned greatest value ≡ some n → n ≤ greatest
unfolding parse_unsigned
parse_unsigned_bound greatest value e = ground arith

parse_port_bound : (piece : Bytes) {n : ℕ} → parse_port piece ≡ some n → n < 65536
unfolding parse_port
parse_port_bound piece e = ground arith

parse_all-AllPorts : (ts : List Bytes) {ns : List ℕ} → parse_all ts ≡ some ns → AllPorts ns
unfolding parse_all
parse_all-AllPorts [] e = subst AllPorts (ground arith) no_port
parse_all-AllPorts (t ∷ ts) e = elim (Option-cases (parse_port t)) [
  | inl bad ↦ absurd (ground (arith, bad))
  | inr (n, good) ↦ elim (Option-cases (parse_all ts)) [
    | inl bad ↦ absurd (ground (arith, bad, good))
    | inr (ns, rest) ↦
        subst AllPorts (ground (arith, good, rest))
          (one_more (parse_port_bound t good) (parse_all-AllPorts ts rest))
  ]
]

-- What an assignment may lead to.
abbrev pub Keeps : Assigned → Type 0
Keeps (assigned c) = IsTyped c
Keeps (invalid m) = true ≡ true

assign_parsed-Keeps {ℓ} :
    {A : Type ℓ} (m : ConfigMessage) (o : Option A) (f : A → Assigned)
    → ((a : A) → o ≡ some a → Keeps (f a))
    → Keeps (assign_parsed m o f)
assign_parsed-Keeps m none f k = refl
assign_parsed-Keeps m (some a) f k = k a refl

parse_uint32_bound : (value : Bytes) {n : ℕ} → parse_uint32 value ≡ some n → n < 2 ^ 32
unfolding parse_uint32
parse_uint32_bound value e = omega (arith, parse_unsigned_bound (2 ^ 32 - 1) value e)

parse_uint64_bound : (value : Bytes) {n : ℕ} → parse_uint64 value ≡ some n → n < 2 ^ 64
unfolding parse_uint64
parse_uint64_bound value e = omega (arith, parse_unsigned_bound (2 ^ 64 - 1) value e)

parse_ports-AllPorts : (value : Bytes) {ns : List ℕ} → parse_ports value ≡ some ns → AllPorts ns
unfolding parse_ports
parse_ports-AllPorts value e = parse_all-AllPorts (pieces value) e

-- What a parsed value satisfies.
abbrev OrNone {ℓ} : {A : Type ℓ} → (A → Type 0) → Option A → Type 0
OrNone P none = true ≡ true
OrNone P (some a) = P a

OrNone-intro {ℓ} :
    {A : Type ℓ} (P : A → Type 0) (o : Option A) → ((a : A) → o ≡ some a → P a) → OrNone P o
OrNone-intro P none h = refl
OrNone-intro P (some a) h = h a refl

parse_uint32_Fits : (value : Bytes) → OrNone (λ n. n < 2 ^ 32) (parse_uint32 value)
parse_uint32_Fits value = OrNone-intro _ _ (λ n. parse_uint32_bound value)

parse_uint64_Fits : (value : Bytes) → OrNone (λ n. n < 2 ^ 64) (parse_uint64 value)
parse_uint64_Fits value = OrNone-intro _ _ (λ n. parse_uint64_bound value)

parse_ports_Fits : (value : Bytes) → OrNone AllPorts (parse_ports value)
parse_ports_Fits value = OrNone-intro _ _ (λ n. parse_ports-AllPorts value)

module _ (config : PolicyConfig) (typed : IsTyped config) where
  assign_general-Keeps : (key value : Bytes) → Keeps (assign_general config key value)
  unfolding assign_general
  assign_general-Keeps key value = ground (arith, typed, parse_uint32_Fits value)

  assign_stats-Keeps : (key value : Bytes) → Keeps (assign_stats config key value)
  unfolding assign_stats
  assign_stats-Keeps key value = ground (arith, typed)

  assign_quic_integer-Keeps :
      (key : Bytes) (n : ℕ) → n < 2 ^ 32 → Keeps (assign_quic_integer config key n)
  unfolding assign_quic_integer
  assign_quic_integer-Keeps key n small = ground (arith, typed)

  assign_tls_integer-Keeps :
      (key : Bytes) (n : ℕ) → n < 2 ^ 32 → Keeps (assign_tls_integer config key n)
  unfolding assign_tls_integer
  assign_tls_integer-Keeps key n small = ground (arith, typed)

  assign_policy-Keeps : (p : TlsAppDataContinuationPolicy) → Keeps (assign_policy config p)
  unfolding assign_policy
  assign_policy-Keeps p = ground (arith, typed)

  assign_capture_integer-Keeps :
      (key : Bytes) (n : ℕ) → n < 2 ^ 32 → Keeps (assign_capture_integer config key n)
  unfolding assign_capture_integer
  assign_capture_integer-Keeps key n small = ground (arith, typed)

  assign_quic-Keeps : (key value : Bytes) → Keeps (assign_quic config key value)
  unfolding assign_quic assign_quic_integer
  assign_quic-Keeps key value =
      ground (arith, typed, parse_uint32_Fits value, parse_ports_Fits value)

  assign_tls-Keeps : (key value : Bytes) → Keeps (assign_tls config key value)
  unfolding assign_tls assign_tls_integer assign_policy
  assign_tls-Keeps key value =
      ground (arith, typed, parse_uint32_Fits value, parse_ports_Fits value)

  assign_capture-Keeps : (key value : Bytes) → Keeps (assign_capture config key value)
  unfolding assign_capture assign_capture_integer assign_output
  assign_capture-Keeps key value =
      ground (arith, typed, parse_uint32_Fits value, parse_uint64_Fits value)

  pub assign_value-Keeps :
      (section key value : Bytes) → Keeps (assign_value config section key value)
  unfolding assign_value
  assign_value-Keeps section key value = ground (
    arith,
    assign_capture-Keeps (to_lower key) value,
    assign_general-Keeps (to_lower key) value,
    assign_tls-Keeps (to_lower key) value,
    assign_quic-Keeps (to_lower key) value,
    assign_stats-Keeps (to_lower key) value,
  )
