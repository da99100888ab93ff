-- ===== src/Main/Offline.antt =====
-- The offline command, from its arguments to the capture file.
use pcap_constrictor_win_pac.Base.{
  ℕ, ◌≡◌, refl, ap, ◌∙◌, true, none, some, [], ◌∷◌, ◌++◌, Bytes, bytes_beq, codes, Option-cases,
  inl, inr,
}
use pcap_constrictor_win_pac.Feed.Output.{decided, file_bytes, run_output}
use pcap_constrictor_win_pac.Feed.Run.{closed_reader, fuel_for, output_snaplen}
use pcap_constrictor_win_pac.Feed.Run as Feed
use pcap_constrictor_win_pac.Loader.Load.{load_from_file}
use pcap_constrictor_win_pac.Main.Commands.{run_offline_pipeline, run_config, main}
use pcap_constrictor_win_pac.Main.World.{World, Exited, exited}
use pcap_constrictor_win_pac.Pcap.Reader.{PcapReader, open_reader}
use pcap_constrictor_win_pac.Pcap.Writer.{OutStream}
use pcap_constrictor_win_pac.Policy.Config.{PolicyConfig}
use pcap_constrictor_win_pac.Policy.Decide.{new_policy}

pipeline_output :
    (w : World) (input : Bytes) (config : PolicyConfig)
    → (run_offline_pipeline w input config).output
      ≡ (Feed.run w.clocks.system
          (w.input_file input)
          (w.output_file config.capture.output)
          config).1
unfolding run_offline_pipeline
pipeline_output w input config =
    elim (Option-cases
      (Feed.run w.clocks.system (w.input_file input) (w.output_file config.capture.output)
        config).0.error) [
          | inl e ↦ rw (e, run_offline_pipeline) refl
          | inr (why, e) ↦ rw (e, run_offline_pipeline) refl
        ]

offline_lem :
    (w : World) (path input : Bytes)
    → (load_from_file (w.config_file path)).error ≡ none
    → main w (codes "--config" ∷ path ∷ codes "--offline-input" ∷ input ∷ [])
      ≡ exited (run_offline_pipeline w input (load_from_file (w.config_file path)).config)
unfolding main run_config bytes_beq
offline_lem w path input loads = rw (loads, run_config) refl

-- The program, called with --config and --offline-input, where the configuration loads without an
-- error, the input file opens, and the output file that the configuration names opens and takes all
-- data: it exits, and the output file has gained the global header with the snap length of the
-- input and every packet of the input cut to the length that the policy of the configuration
-- decides when it is shown the packets one after another, or nothing if there is no packet.
pub main_offline :
    (w : World) (path input : Bytes) (stream : OutStream) (reader : PcapReader)
    → (load_from_file (w.config_file path)).error ≡ none
    → let config = (load_from_file (w.config_file path)).config in
      w.output_file config.capture.output ≡ some stream
      → open_reader closed_reader (w.input_file input) ≡ (reader, true)
      → ((n : ℕ) → stream.accepts n ≡ true)
      → (o : Exited) × (main w (codes "--config" ∷ path ∷ codes "--offline-input" ∷ input ∷ [])
          ≡ exited o)
        × (out : OutStream) × (o.output ≡ some out)
        × (out.content
            ≡ stream.content
              ++ file_bytes w.clocks.system
                  (output_snaplen reader config)
                  (decided w.clocks.system (fuel_for reader) (new_policy config) reader))
main_offline w path input stream reader loads opens reads accepts =
    let config = (load_from_file (w.config_file path)).config in
    let (out, same, content) =
      run_output w.clocks.system (w.input_file input) stream config reader reads accepts in
    (
      run_offline_pipeline w input config,
      offline_lem w path input loads,
      out,
      pipeline_output w input config
          ∙ ap (λ file. (Feed.run w.clocks.system (w.input_file input) file config).1) opens
          ∙ same,
      content,
    )
