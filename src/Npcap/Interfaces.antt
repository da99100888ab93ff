-- ===== src/Npcap/Interfaces.antt =====
-- capture/NpcapInterfaceList.cpp. The devices of pcap_findalldevs and getnameinfo are parameters.
use pcap_constrictor_win_pac.Base.{
  ℕ, Bool, not, Option, none, some, List, [], ◌∷◌, ◌++◌, ◌==◌, bit_and, Bytes, codes, is_empty, ℤ,
  is_zero, if◌then◌else◌,
}

-- `sockaddr`: the family and what follows it.
pub record Sockaddr : Type 0 where
  pub sa_family : ℕ
  pub sa_data : Bytes

-- getnameinfo with NI_NUMERICHOST on an address and its length: a host, or a failure.
abbrev pub GetNameInfo : Type 0
GetNameInfo = Sockaddr → ℕ → Option Bytes

-- `pcap_if_t`
pub record Device : Type 0 where
  pub name : Option Bytes
  pub description : Option Bytes
  pub flags : ℕ
  pub addresses : List (Option Sockaddr)

-- pcap_findalldevs: what it returns, the error buffer, and the devices.
pub record FindAllDevs : Type 0 where
  pub status : ℤ
  pub error_buffer : Bytes
  pub devices : List Device

pub record NpcapInterfaceInfo : Type 0 where
  pub name : Bytes
  pub description : Bytes
  pub addresses : List Bytes
  pub is_loopback : Bool
  pub is_up : Bool
  pub is_running : Bool
  pub is_wireless : Bool

pub record NpcapInterfaceListResult : Type 0 where
  pub interfaces : List NpcapInterfaceInfo
  pub error : Bytes

-- AF_INET is 2 and AF_INET6 is 23 on Windows, where the two structures have 16 and 28 bytes.
unfoldable pub sockaddr_length : Option Sockaddr → ℕ
sockaddr_length none = 0
sockaddr_length (some address) =
    if address.sa_family == 2 then 16 else if address.sa_family == 23 then 28 else 0

unfoldable pub sockaddr_to_numeric_string : GetNameInfo → Option Sockaddr → Bytes
unfolding sockaddr_length
sockaddr_to_numeric_string getnameinfo none = []
sockaddr_to_numeric_string getnameinfo (some address) =
    if sockaddr_length (some address) == 0
    then []
    else (elim (getnameinfo address (sockaddr_length (some address))) [
      | none ↦ []
      | some host ↦ host
    ])

-- `bit` is a PCAP_IF_ constant: LOOPBACK 1, UP 2, RUNNING 4, WIRELESS 8.
unfoldable pub has_flag : ℕ → ℕ → Bool
has_flag flags bit = not (bit_and flags bit == 0)

unfoldable pub numeric_addresses : GetNameInfo → List (Option Sockaddr) → List Bytes
unfolding sockaddr_to_numeric_string
numeric_addresses getnameinfo [] = []
numeric_addresses getnameinfo (address ∷ addresses) =
    let text = sockaddr_to_numeric_string getnameinfo address in
    let rest = numeric_addresses getnameinfo addresses in
    if is_empty text then rest else text ∷ rest

abbrev or_empty : Option Bytes → Bytes
or_empty none = []
or_empty (some text) = text

unfoldable pub interface_info : GetNameInfo → Device → NpcapInterfaceInfo
unfolding has_flag numeric_addresses
interface_info getnameinfo device = record {
  name = or_empty device.name;
  description = or_empty device.description;
  addresses = numeric_addresses getnameinfo device.addresses;
  is_loopback = has_flag device.flags 1;
  is_up = has_flag device.flags 2;
  is_running = has_flag device.flags 4;
  is_wireless = has_flag device.flags 8;
}

unfoldable pub interfaces : GetNameInfo → List Device → List NpcapInterfaceInfo
unfolding interface_info
interfaces getnameinfo [] = []
interfaces getnameinfo (device ∷ devices) =
    interface_info getnameinfo device ∷ interfaces getnameinfo devices

unfoldable pub unsupported_listing : Bytes
unsupported_listing =
    codes "Npcap interface listing is not enabled in this build. Configure with NPCAP_SDK_DIR "
    ++ (codes "or disable PCAP_CONSTRICTOR_WINPACKET_ENABLE_NPCAP_INTERFACE_LISTING "
        ++ codes "for offline-only builds.")

unfoldable pub list_interfaces : Bool → GetNameInfo → FindAllDevs → NpcapInterfaceListResult
unfolding interfaces unsupported_listing
list_interfaces has_npcap getnameinfo found =
    if not has_npcap
    then record { interfaces = []; error = unsupported_listing }
    else if not (is_zero found.status)
    then record {
      interfaces = [];
      error =
          if is_empty found.error_buffer
          then codes "pcap_findalldevs failed with no error details"
          else found.error_buffer;
    }
    else record { interfaces = interfaces getnameinfo found.devices; error = [] }
