-- ===== src/Policy/Packet.antt =====
-- capture/PacketView.hpp and capture/CapturedPacket.hpp.
use pcap_constrictor_win_pac.Base.{ℕ, ◌%◌, ◌^◌, min, Bool, ◌&&◌, leb}
use pcap_constrictor_win_pac.Decode.Types.{PcapLinkType}
use pcap_constrictor_win_pac.Span.{Span}

pub record PacketView : Type 0 where
  pub view_data : Span
  pub captured_len : ℕ
  pub original_len : ℕ

unfoldable pub is_length_sane : PacketView → Bool
is_length_sane p = leb p.captured_len p.view_data.size && leb p.captured_len p.original_len

unfoldable pub safe_captured_len : PacketView → ℕ
safe_captured_len p = min p.captured_len p.view_data.size % 2 ^ 32

pub data PacketDirection : Type 0 where
  unknown incoming outgoing broadcast multicast other_host : PacketDirection

-- `timestamp` counts the ticks of the system clock since its epoch.
pub record CapturedPacket : Type 0 where
  pub packet : PacketView
  pub timestamp : ℕ
  pub ifindex : ℕ
  pub direction : PacketDirection
  pub link_type : PcapLinkType

-- `std::span(packet.data().data(), safe_captured_len)`
unfoldable pub safe_span : CapturedPacket → Span
unfolding safe_captured_len
safe_span p = record { memory = p.packet.view_data.memory; size = safe_captured_len p.packet }
