-- ===== src/Quic/Types.antt =====
-- The types of policy/QuicConstrictor.hpp, with their defaulted equality.
use pcap_constrictor_win_pac.Base.{
  ℕ, ◌≡◌, ◌↔◌, Bool, true, false, ◌&&◌, Bytes, ◌==◌, Eq, bytes_beq, bytes_beq_iff, replicate, arith,
}
use pcap_constrictor_win_pac.Base.Table.{Table}
use pcap_constrictor_win_pac.Decode.Types.{IpVersion, ip_version_beq}

pub data QuicConstrictDisposition : Type 0 where
  not_applicable long_header short_header_matched : QuicConstrictDisposition
  unknown_cid_fallback dcid_mismatch_fallback malformed_fallback : QuicConstrictDisposition

pub record QuicConstrictResult : Type 0 where
  pub disposition : QuicConstrictDisposition
  pub output_len : ℕ

-- A result with the default output length.
abbrev pub plain : QuicConstrictDisposition → QuicConstrictResult
plain d = record { disposition = d; output_len = 0 }

-- A connection id; `bytes` has 20 places, and zeros behind the first `length`.
pub record ConnectionId : Type 0 where
  pub bytes : Bytes
  pub length : ℕ
  pub known : Bool

abbrev pub empty_cid : ConnectionId
empty_cid = record { bytes = replicate 20 0; length = 0; known = false }

pub record Endpoint : Type 0 where
  pub address : Bytes
  pub address_length : ℕ
  pub port : ℕ

pub record FlowKey : Type 0 where
  pub ip_version : IpVersion
  pub endpoint_a : Endpoint
  pub endpoint_b : Endpoint

pub data FlowDirection : Type 0 where
  a_to_b b_to_a : FlowDirection

pub record FlowState : Type 0 where
  pub endpoint_a_scid : ConnectionId
  pub endpoint_b_scid : ConnectionId

abbrev pub empty_flow : FlowState
empty_flow = record { endpoint_a_scid = empty_cid; endpoint_b_scid = empty_cid }

unfoldable pub endpoint_beq : Endpoint → Endpoint → Bool
endpoint_beq x y =
    bytes_beq x.address y.address && x.address_length == y.address_length && x.port == y.port

endpoint_beq_iff : (x y : Endpoint) → (endpoint_beq x y ≡ true) ↔ (x ≡ y)
unfolding endpoint_beq
endpoint_beq_iff x y = ground (arith, bytes_beq_iff x.address y.address)

ip_version_beq_iff : (v w : IpVersion) → (ip_version_beq v w ≡ true) ↔ (v ≡ w)
ip_version_beq_iff v w = ground arith

unfoldable pub flow_key_beq : FlowKey → FlowKey → Bool
unfolding endpoint_beq
flow_key_beq k j =
    ip_version_beq k.ip_version j.ip_version
    && endpoint_beq k.endpoint_a j.endpoint_a
    && endpoint_beq k.endpoint_b j.endpoint_b

pub flow_key_beq_iff : (k j : FlowKey) → (flow_key_beq k j ≡ true) ↔ (k ≡ j)
unfolding flow_key_beq
flow_key_beq_iff k j = ground (
  arith,
  ip_version_beq_iff k.ip_version j.ip_version,
  bytes_beq_iff k.endpoint_a.address j.endpoint_a.address,
  bytes_beq_iff k.endpoint_b.address j.endpoint_b.address,
)

instance abbrev pub flow_eq : Eq FlowKey
flow_eq = record { beq = flow_key_beq; beq_iff = flow_key_beq_iff }

abbrev pub Flows : Type 0
Flows = Table FlowKey FlowState
