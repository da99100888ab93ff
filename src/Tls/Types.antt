-- ===== src/Tls/Types.antt =====
-- The types of policy/TlsConstrictor.hpp, and the key of a direction.
use pcap_constrictor_win_pac.Base.{
  ℕ, ◌≡◌, ◌↔◌, Bool, true, false, ◌&&◌, Bytes, ◌==◌, Eq, bytes_beq, bytes_beq_iff, arith,
}
use pcap_constrictor_win_pac.Base.Table.{Table}
use pcap_constrictor_win_pac.Decode.Types.{PacketDecodeResult}

pub data TlsConstrictDisposition : Type 0 where
  no_record malformed no_application_data app_data_prefix : TlsConstrictDisposition
  uncertain_fallback : TlsConstrictDisposition

pub record TlsConstrictResult : Type 0 where
  pub disposition : TlsConstrictDisposition
  pub output_len : ℕ

pub record DirectionKey : Type 0 where
  pub src_ip : Bytes
  pub dst_ip : Bytes
  pub address_length : ℕ
  pub src_port : ℕ
  pub dst_port : ℕ

pub record DirectionState : Type 0 where
  pub confirmed_tls : Bool
  pub has_seen_application_data : Bool
  pub synchronized : Bool
  pub expected_tcp_seq : ℕ
  pub has_active_record : Bool
  pub active_record_content_type : ℕ
  pub active_record_remaining_bytes : ℕ
  pub active_record_constrictible : Bool

abbrev pub empty_state : DirectionState
empty_state = record {
  confirmed_tls = false;
  has_seen_application_data = false;
  synchronized = false;
  expected_tcp_seq = 0;
  has_active_record = false;
  active_record_content_type = 0;
  active_record_remaining_bytes = 0;
  active_record_constrictible = false;
}

unfoldable pub key_beq : DirectionKey → DirectionKey → Bool
unfolding bytes_beq
key_beq k j =
    bytes_beq k.src_ip j.src_ip
    && bytes_beq k.dst_ip j.dst_ip
    && k.address_length == j.address_length
    && k.src_port == j.src_port
    && k.dst_port == j.dst_port

pub key_beq_iff : (k j : DirectionKey) → (key_beq k j ≡ true) ↔ (k ≡ j)
unfolding key_beq
key_beq_iff k j = ground (arith, bytes_beq_iff k.src_ip j.src_ip, bytes_beq_iff k.dst_ip j.dst_ip)

instance abbrev pub direction_eq : Eq DirectionKey
direction_eq = record { beq = key_beq; beq_iff = key_beq_iff }

abbrev pub Directions : Type 0
Directions = Table DirectionKey DirectionState

unfoldable pub make_direction_key : PacketDecodeResult → DirectionKey
make_direction_key decoded = record {
  src_ip = decoded.src_address;
  dst_ip = decoded.dst_address;
  address_length = decoded.address_length;
  src_port = decoded.src_port;
  dst_port = decoded.dst_port;
}

unfoldable pub reverse_direction_key : PacketDecodeResult → DirectionKey
reverse_direction_key decoded = record {
  src_ip = decoded.dst_address;
  dst_ip = decoded.src_address;
  address_length = decoded.address_length;
  src_port = decoded.dst_port;
  dst_port = decoded.src_port;
}
