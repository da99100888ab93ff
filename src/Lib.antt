-- ===== src/Lib.antt =====
-- PcapConstrictorWinPacket captures packets on Windows, or reads them from a capture file, shortens
-- packets whose tail is encrypted TLS or QUIC data, and writes them to a pcap file. This library
-- models its core and proves what the parts promise each other.
--
-- DecodePacket finds the headers and the payload of a packet. LiveCapturePolicy::Evaluate decodes a
-- packet, hands it to TlsConstrictor or QuicConstrictor, each with a table of the connections it has
-- seen, and turns their answer into an output length. OfflinePacketFeed::Run drives PcapReader, the
-- policy and PcapWriter over a whole file, NpcapCapture::Run drives Npcap, the policy and PcapWriter,
-- and main chooses between them.
--
--   Base      Boolean tests, byte strings, options, and std::unordered_map as a table behind laws.
--   Span      std::span<const std::byte>, HasBytes and the readers of big- and little-endian numbers.
--             A span has memory behind its end, so that reads out of range are visible.
--   Decode    src/decode/PacketDecode.{hpp,cpp}. Transport, Network and Link follow the source from
--             DecodeTcp to DecodePacket; Bounds, Locality and Vlan hold proofs.
--   Policy    Config: src/policy/PolicyConfig.hpp. Packet: src/capture/PacketView.hpp and
--             src/capture/CapturedPacket.hpp. Decide: src/policy/LiveCapturePolicy.cpp, with Evaluate
--             in the steps classify, constrict (judge_tls, judge_quic), evaluate.
--   Tls       src/policy/TlsConstrictor.{hpp,cpp}. Scan is the loop over records, on a record of
--             Evaluate's local variables, the state of the direction and the table; Evaluate is the
--             code around it. Records and Reference state the cut independently of the loop, Segments
--             the sequences of segments that Spanning and Continuation are about.
--   Quic      src/policy/QuicConstrictor.{hpp,cpp}. Flow: the canonical key of a flow. Parse: long
--             headers. Evaluate: the walk over long headers and the match of a short header.
--             Wire: the layout of RFC 9000, for Varint, RoundTrip and Coalesced.
--   Pcap      src/writer/PcapWriter.{hpp,cpp} and src/offline/PcapReader.{hpp,cpp}. Exceptions and
--             error messages are values; an output stream is its content and its answer whether it
--             still accepts data, an input file its reported size and its content.
--             Fields: the layout of the headers in both byte orders, for Opening and Bounds.
--   Feed      src/offline/OfflinePacketFeed.cpp and src/stats/CaptureStats.hpp.
--   Live      src/capture/NpcapCapture.{hpp,cpp}: Loop is the capture loop, with the steps iteration,
--             receive, deliver and capture_packet, on a record of the objects and results that it
--             changes; Run is the code around it. Turns states an iteration as a step relation.
--             Report: src/capture/LiveCaptureReporting.cpp.
--   Npcap     src/capture/NpcapRuntime.cpp, src/capture/NpcapInterfaceList.cpp and
--             src/capture/NpcapInterfaceListFormatting.cpp; Described is a description by lines.
--   Main      src/main.cpp: the stop flag (Controls), and the commands from the arguments to the exit
--             code, what is printed, and the capture file.
--   Loader    src/config/ConfigLoader.{hpp,cpp}. Text and Values: the helpers down to ParsePorts.
--             Assign: AssignValue, one function for each section. Load: LoadFromString.
--   Tests     Concrete packets and files.
--
-- Numbers are natural numbers with the wrap-around of the source written out where a cast or an
-- operation can wrap. A table entry that the source holds by reference is read at the start and
-- stored where Evaluate returns. The loops are bounded: the walk over VLAN tags, over TLS records and
-- over QUIC long headers by one round for each byte of the span, which is enough since every round
-- consumes at least one byte, and the offline loop by one round more than there are unread bytes,
-- since every packet takes at least 16 of them. The period of std::chrono::system_clock is a
-- parameter, which divides a microsecond.
--
-- Npcap, Windows, the file system and the clocks are parameters. A live capture is the answers that
-- Npcap gives: for each iteration of its loop the stop flag, the time and the answer of pcap_next_ex,
-- as a list. Where the list ends before the loop does, the capture is still going; nothing is assumed
-- of the answers but what a theorem names. The parts with #ifdef are those of a build for Windows,
-- with and without Npcap. What a stream holds behind a write that it refused is left out.
--
-- Not modelled: the hash functions of the tables, on which their contents do not depend; the texts of
-- the error messages of the loader, the reader and the offline feed, which are values; pcap_close and
-- the memory that pcap_findalldevs returns; the installation of the console handler; the text of a
-- number of seconds as a double, which is a parameter; the partial content of a file behind a failed
-- write; times before 1970 in the signed fields of a packet header of Npcap.
pub mod Base
pub mod Span
pub mod Decode
pub mod Policy
pub mod Tls
pub mod Quic
pub mod Feed
pub mod Live
pub mod Npcap
pub mod Main
pub mod Loader
pub mod Pcap
pub mod Tests
