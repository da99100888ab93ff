-- ===== src/Main/Exit.antt =====
-- Exit codes and what is printed with them.
use pcap_constrictor_win_pac.Base.{
  ◌≡◌, ◌≢◌, refl, ◌∙◌, ◌⊎◌, inl, inr, Option, none, some, List, [], ◌∷◌, ◌++◌, Bytes, codes,
  is_empty, ℤ, Bool, true, false, if◌then◌else◌, Bool-cases, Option-cases, arith,
}
use pcap_constrictor_win_pac.Feed.Run as Feed
use pcap_constrictor_win_pac.Feed.Types.{CaptureStats}
use pcap_constrictor_win_pac.Live.Cases.{opening}
use pcap_constrictor_win_pac.Live.Ending.{KeepsFlag, Ends, run-Ends}
use pcap_constrictor_win_pac.Live.Report.{termination_is_success, format_summary, report_count}
use pcap_constrictor_win_pac.Live.Run.{still_going, returned, Ran, LiveRun}
use pcap_constrictor_win_pac.Live.Run as Live
use pcap_constrictor_win_pac.Live.Types.{
  LiveCaptureTerminationReason, stopped, interrupted, max_packets_reached, duration_reached,
  capture_loop_ended, Handle, is_ok, NpcapDriverStats,
}
use pcap_constrictor_win_pac.Loader.Load.{load_from_file}
use pcap_constrictor_win_pac.Main.Commands.{
  print_offline_stats, refuse, run_offline_pipeline, missing_runtime, listing_error,
  print_interfaces, report_warning, run_list_interfaces, report_live, finish_live, run_live_capture,
  usage, usage_error, run_config, main, unavailable_message, interface_required,
}
use pcap_constrictor_win_pac.Main.World.{
  World, Piece, text, config_message, feed_message, Exited, Outcome, capturing, exited,
}
use pcap_constrictor_win_pac.Npcap.Interfaces.{list_interfaces, NpcapInterfaceListResult}
use pcap_constrictor_win_pac.Npcap.Runtime.{NpcapRuntimeCheck, check_runtime_available}
use pcap_constrictor_win_pac.Policy.Config.{PolicyConfig}

-- Nothing, or one warning of Npcap.
abbrev pub IsQuiet : List Piece → Type 0
IsQuiet err = (err ≡ []) ⊎ ((t : Bytes) × (err ≡ text (codes "Npcap warning: " ++ t) ∷ []))

-- Something is printed, and no text of it is empty. (An error that is a value has its text.)
abbrev pub AllTold : List Piece → Type 0
AllTold [] = Unit {0}
AllTold (text t ∷ pieces) = (t ≢ []) × AllTold pieces
AllTold (config_message e ∷ pieces) = AllTold pieces
AllTold (feed_message e ∷ pieces) = AllTold pieces

abbrev pub Tells : List Piece → Type 0
Tells pieces = (pieces ≢ []) × AllTold pieces

-- Success tells something on standard output and at most a warning on standard error; failure
-- tells something on standard error.
pub data IsExit (o : Exited) : Type 0 where
  success : o.code ≡ 0 → Tells o.out → IsQuiet o.err → IsExit o
  failure : o.code ≡ 1 → Tells o.err → IsExit o

abbrev pub Exits : Outcome → Type 0
Exits (capturing c) = (c.termination_reason ≡ stopped) × (c.message ≡ [])
Exits (exited o) = IsExit o

append_cons-nonempty {ℓ} : {A : Type ℓ} (xs : List A) (y : A) (ys : List A) → xs ++ (y ∷ ys) ≢ []
append_cons-nonempty [] y ys = ground arith
append_cons-nonempty (x ∷ xs) y ys = ground arith

append-nonempty : (xs ys : Bytes) → is_empty xs ≡ false → xs ++ ys ≢ []
append-nonempty [] ys e = ground arith
append-nonempty (x ∷ xs) ys e = ground arith

print_offline_stats-nonempty : (stats : CaptureStats) → print_offline_stats stats ≢ []
unfolding print_offline_stats report_count
print_offline_stats-nonempty stats = ground arith

format_summary-nonempty :
    (reason : LiveCaptureTerminationReason) (stats : CaptureStats) (driver : NpcapDriverStats)
    (elapsed path : Bytes) (promiscuous : Bool)
    → format_summary reason stats driver elapsed path promiscuous ≢ []
unfolding format_summary
format_summary-nonempty reason stats driver elapsed path promiscuous = ground arith

AllTold-append : (xs ys : List Piece) → AllTold xs → AllTold ys → AllTold (xs ++ ys)
AllTold-append [] ys a b = b
AllTold-append (text t ∷ xs) ys a b = (a.0, AllTold-append xs ys a.1 b)
AllTold-append (config_message e ∷ xs) ys a b = AllTold-append xs ys a b
AllTold-append (feed_message e ∷ xs) ys a b = AllTold-append xs ys a b

told_where : (b : Bool) (t : Bytes) → t ≢ [] → AllTold (if b then text t ∷ [] else [])
told_where true t h = (h, tt)
told_where false t h = tt

Tells-text : (t : Bytes) → t ≢ [] → Tells (text t ∷ [])
Tells-text t h = (ground arith, (h, tt))

refuse-IsExit : (err : List Piece) → Tells err → IsExit (refuse err)
unfolding refuse
refuse-IsExit err h = failure refl h

run_offline_pipeline-IsExit :
    (w : World) (path : Bytes) (config : PolicyConfig) → IsExit (run_offline_pipeline w path config)
unfolding run_offline_pipeline
run_offline_pipeline-IsExit w path config =
    let stats =
      (Feed.run w.clocks.system (w.input_file path) (w.output_file config.capture.output)
        config).0.stats in
    elim (Option-cases
      (Feed.run w.clocks.system (w.input_file path) (w.output_file config.capture.output)
        config).0.error) [
          | inr (e, h) ↦
              rw (h, run_offline_pipeline)
                (failure refl (ground arith, (ground arith, (ground arith, tt))))
          | inl h ↦
              rw (h, run_offline_pipeline)
                (success refl
                  (
                    ground arith,
                    (
                      ground arith,
                      told_where config.stats.enabled _ (print_offline_stats-nonempty stats),
                    ),
                  )
                  (inl refl))
        ]

missing_runtime-IsExit : (check : NpcapRuntimeCheck) → IsExit (missing_runtime check)
unfolding missing_runtime
missing_runtime-IsExit check = elim (Bool-cases (is_empty check.message)) [
  | inl e ↦ rw e (refuse-IsExit _ (Tells-text _ (append_cons-nonempty check.message _ [])))
  | inr e ↦ rw e (refuse-IsExit _ (Tells-text _ (append-nonempty check.message _ e)))
]

listing_error-IsExit : (error : Bytes) → IsExit (listing_error error)
unfolding listing_error
listing_error-IsExit error = refuse-IsExit _ (Tells-text _ (ground arith))

print_interfaces-IsExit : (result : NpcapInterfaceListResult) → IsExit (print_interfaces result)
unfolding print_interfaces
print_interfaces-IsExit result = elim (Bool-cases (is_empty result.error)) [
  | inr e ↦ rw e (listing_error-IsExit result.error)
  | inl e ↦ rw e elim (Bool-cases (is_empty result.interfaces)) [
    | inl f ↦ rw f (success refl (Tells-text _ (ground arith)) (inl refl))
    | inr f ↦ rw f (success refl (Tells-text _ (append_cons-nonempty _ _ [])) (inl refl))
  ]
]

run_list_interfaces-IsExit : (w : World) → IsExit (run_list_interfaces w)
unfolding run_list_interfaces
run_list_interfaces-IsExit w =
    let result = list_interfaces w.has_npcap w.getnameinfo w.find_all_devs in
    let check = (check_runtime_available w.load_library []).0 in
    ground (
      arith,
      listing_error-IsExit result.error,
      missing_runtime-IsExit check,
      print_interfaces-IsExit result,
    )

report_warning-IsQuiet : (warning : Bytes) → IsQuiet (report_warning warning)
unfolding report_warning
report_warning-IsQuiet warning = elim (Bool-cases (is_empty warning)) [
  | inl e ↦ rw e (inl refl)
  | inr e ↦ rw e (inr (warning ++ codes "\n", refl))
]

report_warning-AllTold : (warning : Bytes) → AllTold (report_warning warning)
unfolding report_warning
report_warning-AllTold warning = elim (Bool-cases (is_empty warning)) [
  | inl e ↦ rw e tt
  | inr e ↦ rw e (ground arith, tt)
]

-- What is printed where the capture was interrupted.
abbrev note : LiveCaptureTerminationReason → List Piece
note interrupted = text (codes "Capture interrupted, finalizing output...\n") ∷ []
note _ = []

note-AllTold : (reason : LiveCaptureTerminationReason) → AllTold (note reason)
note-AllTold interrupted = (ground arith, tt)
note-AllTold stopped = tt
note-AllTold max_packets_reached = tt
note-AllTold duration_reached = tt
note-AllTold capture_loop_ended = tt
note-AllTold LiveCaptureTerminationReason.error = tt

report_live-IsExit :
    (w : World) (config : PolicyConfig) (ran : Ran)
    → termination_is_success ran.result.termination_reason ≡ is_ok ran.result
    → IsExit (report_live w config ran)
unfolding report_live
report_live-IsExit w config ran agrees =
    let r = ran.result in
    let told =
      format_summary-nonempty r.termination_reason r.stats r.driver_stats
        (w.elapsed_text r.elapsed_ticks) config.capture.output config.capture.promiscuous in
    elim (Bool-cases (is_ok ran.result)) [
      | inl e ↦
          rw (agrees ∙ e, e)
            (success refl
              (
                ground arith,
                (
                  ground arith,
                  AllTold-append (note r.termination_reason) _ (note-AllTold r.termination_reason)
                      (told, tt),
                ),
              )
              (report_warning-IsQuiet r.warning))
      | inr e ↦ rw e (
          failure refl (
            append_cons-nonempty (report_warning r.warning) _ _,
            AllTold-append (report_warning r.warning) _ (report_warning-AllTold r.warning)
                (ground arith, (told, tt)),
          ))
    ]

finish_live-Exits :
    (w : World) (config : PolicyConfig) (out : LiveRun)
    → Ends w.clocks w.open_live config.capture out
    → Exits (finish_live w config out)
unfolding finish_live
finish_live-Exits w config (still_going c) e = e
finish_live-Exits w config (returned ran) e = report_live-IsExit w config ran e.success

run_live_capture-Exits :
    (w : World) (config : PolicyConfig)
    → ((h : Handle)
        → (opening w.open_live config.capture).0 ≡ some h
        → KeepsFlag h.stop_flag_behind h.rounds)
    → Exits (run_live_capture w config)
unfolding run_live_capture
run_live_capture-Exits w config keeps =
    let check = (check_runtime_available w.load_library []).0 in
    let unavailable : unavailable_message ≢ [] = unfold unavailable_message in ground arith in
    let required : interface_required ≢ [] = unfold interface_required in ground arith in
    let out =
      Live.run w.has_npcap w.clocks w.open_live config.capture config config.capture.output
        (w.output_file config.capture.output) in
    let live =
      run-Ends w.has_npcap w.clocks w.open_live config.capture config config.capture.output
        (w.output_file config.capture.output) keeps in
    ground (
      arith,
      refuse-IsExit (text unavailable_message ∷ []) (Tells-text unavailable_message unavailable),
      refuse-IsExit (text interface_required ∷ []) (Tells-text interface_required required),
      missing_runtime-IsExit check,
      finish_live-Exits w config out live,
    )

-- A stop flag that is seen in some round of a capture is up behind it.
abbrev pub KeepsFlags : World → Type 0
KeepsFlags w =
    (name : Bytes) (snaplen promiscuous timeout : ℤ) (h : Handle)
    → (w.open_live name snaplen promiscuous timeout).0 ≡ some h
    → KeepsFlag h.stop_flag_behind h.rounds

run_config-Exits :
    (w : World) (path : Bytes) (input : Option Bytes)
    → KeepsFlags w
    → Exits (run_config w path input)
unfolding run_config
run_config-Exits w path input keeps =
    elim (Option-cases (load_from_file (w.config_file path)).error) [
      | inr (e, h) ↦
          rw (h, run_config) (refuse-IsExit _ (ground arith, (ground arith, (ground arith, tt))))
      | inl h ↦
          rw (h, run_config)
            elim (Option-cases input) [
              | inr (input_path, i) ↦
                  rw (i, run_config) (run_offline_pipeline-IsExit w input_path _)
              | inl i ↦
                  rw (i, run_config) (run_live_capture-Exits w _ (λ h opens. keeps _ _ _ _ h opens))
            ]
    ]

usage_error-IsExit : IsExit usage_error
unfolding usage_error usage
usage_error-IsExit = refuse-IsExit _ (Tells-text usage (ground arith))

help-IsExit : IsExit (record { code = 0; out = text usage ∷ []; err = []; output = none })
unfolding usage
help-IsExit = success refl (Tells-text usage (ground arith)) (inl refl)

-- For every command line, whatever the files, Windows and Npcap answer, for a stop flag that stays
-- up once it is up: the program exits with 0, having printed something on standard output and at
-- most one warning of Npcap on standard error, or with 1, having printed something on standard
-- error; and none of the texts is empty that it prints on standard output in the first case and on
-- standard error in the second. A capture that is still going behind its last round has no error message.
pub main-Exits : (w : World) (args : List Bytes) → KeepsFlags w → Exits (main w args)
unfolding main
main-Exits w [] keeps = usage_error-IsExit
main-Exits w (option ∷ []) keeps =
    ground (arith, help-IsExit, run_list_interfaces-IsExit w, usage_error-IsExit)
main-Exits w (option ∷ path ∷ []) keeps =
    ground (arith, run_config-Exits w path none keeps, usage_error-IsExit)
main-Exits w (option ∷ path ∷ second ∷ []) keeps = usage_error-IsExit
main-Exits w (option ∷ path ∷ second ∷ input ∷ []) keeps =
    ground (arith, run_config-Exits w path (some input) keeps, usage_error-IsExit)
main-Exits w (option ∷ path ∷ second ∷ input ∷ fifth ∷ rest) keeps = usage_error-IsExit
