-- ===== src/Tests/Files.antt =====
-- Capture files: written, read back, and constricted.
use pcap_constrictor_win_pac.Base.{
  ◌≡◌, refl, true, false, [], ◌∷◌, ◌++◌, arith, none, some, length, Bytes,
}
use pcap_constrictor_win_pac.Decode.Types.{ethernet}
use pcap_constrictor_win_pac.Feed.Books.{IsReport, run-IsReport, run_no_packets}
use pcap_constrictor_win_pac.Feed.Types.{no_stats}
use pcap_constrictor_win_pac.Feed.Output.{decided, file_bytes, run_output}
use pcap_constrictor_win_pac.Feed.Run.{run, closed_reader, fuel_for, output_snaplen}
use pcap_constrictor_win_pac.Pcap.Whole.{
  Emitted, body, fits_nil, fits_cons, read_all, reread_all, read_all-header_bytes,
}
use pcap_constrictor_win_pac.Policy.Decide.{new_policy}
use pcap_constrictor_win_pac.Pcap.Bounds.{Outcome, read_next-Outcome}
use pcap_constrictor_win_pac.Pcap.Opening.{Opening, open_reader-Opening}
use pcap_constrictor_win_pac.Pcap.Layout.{header_bytes, packet_bytes}
use pcap_constrictor_win_pac.Pcap.Reader.{InputFile, PcapReader, open_reader, read_next}
use pcap_constrictor_win_pac.Pcap.RoundTrip.{opened, reread, open_reader-header_bytes}
use pcap_constrictor_win_pac.Pcap.Time.{micros-timestamp}
use pcap_constrictor_win_pac.Pcap.Types.{timestamp, microsecond}
use pcap_constrictor_win_pac.Pcap.Writer.{micros, OutStream, le16, le32}
use pcap_constrictor_win_pac.Policy.Packet.{CapturedPacket}
use pcap_constrictor_win_pac.Span.{copy_bytes}
use pcap_constrictor_win_pac.Tests.Samples.{
  tls_frame, captured, msvc_clock, small_config, all_accepted,
}

abbrev pub frame : CapturedPacket
frame = captured tls_frame

-- A file with one whole packet, cut to 60 bytes.
abbrev pub file : Bytes
file = header_bytes 65535 ethernet ++ (packet_bytes msvc_clock frame 60 ++ [])

abbrev second_file : InputFile
second_file = record { reported_size = some 24; content = some (header_bytes 65535 ethernet ++ []) }

abbrev reader : PcapReader
reader = opened 65535 100 (packet_bytes msvc_clock frame 60 ++ [])

read_next-Outcome_example :
    Outcome reader (packet_bytes msvc_clock frame 60 ++ []) (read_next reader)
unfolding le32 copy_bytes
read_next-Outcome_example =
    read_next-Outcome reader (packet_bytes msvc_clock frame 60 ++ []) refl refl refl

open_reader-Opening_example :
    Opening file (
      open_reader closed_reader
        (record { reported_size = some (length file); content = some file }))
open_reader-Opening_example = open_reader-Opening closed_reader file

run-IsReport_example :
    IsReport
      (length file)
      (run msvc_clock
        (record { reported_size = some (length file); content = some file })
        (some all_accepted)
        small_config).0
unfolding le16 le32 copy_bytes
run-IsReport_example = run-IsReport msvc_clock file (some all_accepted) small_config (omega arith)

run_no_packets_example :
    (run msvc_clock second_file (some all_accepted) small_config
      ≡ (record { error = none; stats = no_stats }, some all_accepted))
    × ((open_reader closed_reader (record { reported_size = some 0; content = some [] })).1 ≡ false)
run_no_packets_example =
    run_no_packets msvc_clock 65535 all_accepted small_config (omega arith) (omega arith)

pub file_opens :
    open_reader closed_reader (record { reported_size = some (length file); content = some file })
    ≡ (opened 65535 (length file) (packet_bytes msvc_clock frame 60 ++ []), true)
unfolding le16 le32 copy_bytes
file_opens =
    open_reader-header_bytes closed_reader 65535 (length file)
      (packet_bytes msvc_clock frame 60 ++ []) (omega arith) (omega arith) (omega arith)

abbrev pub file_reader : PcapReader
file_reader = opened 65535 (length file) (packet_bytes msvc_clock frame 60 ++ [])

run_output_example :
    (out : OutStream) × ((run msvc_clock
        (record { reported_size = some (length file); content = some file })
        (some all_accepted)
        small_config).1
      ≡ some out)
    × (out.content
        ≡ []
          ++ file_bytes msvc_clock
              (output_snaplen file_reader small_config)
              (decided msvc_clock (fuel_for file_reader) (new_policy small_config) file_reader))
run_output_example =
    run_output msvc_clock (record { reported_size = some (length file); content = some file })
      all_accepted small_config file_reader file_opens (λ n. refl)

abbrev one_packet : Emitted
one_packet = (frame, 60) ∷ []

read_all-header_bytes_example :
    let r = opened 65535 (length file) (body msvc_clock one_packet) in
    (open_reader closed_reader (record { reported_size = some (length file); content = some file })
      ≡ (r, true))
    × (read_all 2 r ≡ reread_all msvc_clock r one_packet)
    × ((reread_all msvc_clock r one_packet).0.error ≡ none)
    × (length (reread_all msvc_clock r one_packet).1 ≡ 1)
unfolding le16 le32 copy_bytes
read_all-header_bytes_example =
    read_all-header_bytes msvc_clock closed_reader 65535 one_packet (omega arith) (omega arith)
      (fits_cons (omega arith) (omega arith) fits_nil) (omega arith)

micros-timestamp_example :
    micros msvc_clock (record frame {
      timestamp = timestamp msvc_clock microsecond (reread msvc_clock reader frame 60);
    })
    ≡ micros msvc_clock frame
unfolding micros
micros-timestamp_example = micros-timestamp msvc_clock reader frame 60 (omega arith)
