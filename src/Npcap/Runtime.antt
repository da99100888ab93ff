-- ===== src/Npcap/Runtime.antt =====
-- capture/NpcapRuntime.cpp in a build for Windows. The loader of Windows is a parameter: a module
-- loads, or fails with a code of GetLastError. The modules that the process holds are a list.
use pcap_constrictor_win_pac.Base.{
  ℕ, ◌≡◌, refl, sym, ◌∙◌, Bool, true, false, Option, none, some, List, [], ◌∷◌, ◌++◌, Bytes,
  bytes_beq, codes, is_empty, to_string, if◌then◌else◌, ◌&&◌, Bool-cases, Option-cases, inl, inr,
}

pub record NpcapRuntimeCheck : Type 0 where
  pub available : Bool
  pub message : Bytes

-- LoadLibraryA: no code if the module loads.
abbrev pub LoadLibrary : Type 0
LoadLibrary = Bytes → Option ℕ

unfoldable pub format_load_failure_detail : Bytes → ℕ → Bytes
unfolding to_string
format_load_failure_detail dll_name error_code =
    codes "failed to load "
    ++ (dll_name ++ (codes " (GetLastError=" ++ (to_string error_code ++ codes ")")))

unfoldable pub missing_text : Bytes
missing_text =
    codes "Npcap runtime was not found.\n\nPcapConstrictorWinPacket was built with Npcap support, "
    ++ (codes "but wpcap.dll/Packet.dll\ncould not be loaded.\n\n"
        ++ (codes "Install the Npcap runtime, then run this command again.\n"
            ++ codes "The Npcap SDK is only required when building from source."))

unfoldable pub format_missing_message : Bytes → Bytes
unfolding missing_text
format_missing_message detail =
    if is_empty detail then missing_text else missing_text ++ (codes "\nDetails: " ++ detail)

abbrev pub wpcap_dll : Bytes
wpcap_dll = codes "wpcap.dll"

abbrev pub packet_dll : Bytes
packet_dll = codes "Packet.dll"

-- FreeLibrary gives up one reference to a module.
unfoldable pub free_library : Bytes → List Bytes → List Bytes
free_library name [] = []
free_library name (m ∷ held) = if bytes_beq m name then held else m ∷ free_library name held

unfoldable pub missing : Bytes → ℕ → NpcapRuntimeCheck
unfolding format_missing_message format_load_failure_detail
missing name error_code = record {
  available = false;
  message = format_missing_message (format_load_failure_detail name error_code);
}

-- With the modules that are held before and afterwards.
unfoldable pub check_runtime_available : LoadLibrary → List Bytes → NpcapRuntimeCheck × List Bytes
check_runtime_available load held = elim (load wpcap_dll) [
  | some code ↦ (missing wpcap_dll code, held)
  | none ↦ elim (load packet_dll) [
    | some code ↦ (missing packet_dll code, free_library wpcap_dll (wpcap_dll ∷ held))
    | none ↦ (
      record { available = true; message = [] },
      free_library wpcap_dll (free_library packet_dll (packet_dll ∷ wpcap_dll ∷ held)),
    )
  ]
]

free_first : (held : List Bytes) → free_library wpcap_dll (wpcap_dll ∷ held) ≡ held
unfolding free_library bytes_beq
free_first held = refl

free_both :
    (held : List Bytes)
    → free_library wpcap_dll (free_library packet_dll (packet_dll ∷ wpcap_dll ∷ held)) ≡ held
unfolding free_library bytes_beq
free_both held = refl

missing-nonempty : (name : Bytes) (code : ℕ) → is_empty (missing name code).message ≡ false
unfolding missing
missing-nonempty name code = elim (Bool-cases (is_empty (format_load_failure_detail name code))) [
  | inl e ↦ rw e refl
  | inr e ↦ rw e refl
]

missing-available : (name : Bytes) (code : ℕ) → (missing name code).available ≡ false
unfolding missing
missing-available name code = refl

-- The runtime is available exactly if both modules load; the message is empty exactly then; and
-- every module that was loaded for the check has been given up again, no other one.
pub check_runtime_available_lem :
    (load : LoadLibrary) (held : List Bytes)
    → let (check, after) = check_runtime_available load held in
      (check.available ≡ (
        (elim (load wpcap_dll) [ none ↦ true | some code ↦ false ])
        && (elim (load packet_dll) [ none ↦ true | some code ↦ false ])))
      × (is_empty check.message ≡ check.available)
      × (after ≡ held)
unfolding check_runtime_available
check_runtime_available_lem load held = elim (Option-cases (load wpcap_dll)) [
  | inr (code, e) ↦
      rw (e, check_runtime_available)
        (
          missing-available wpcap_dll code,
          missing-nonempty wpcap_dll code ∙ sym (missing-available wpcap_dll code),
          refl,
        )
  | inl e ↦
      rw (e, check_runtime_available)
        elim (Option-cases (load packet_dll)) [
          | inr (code, f) ↦
              rw (f, check_runtime_available)
                (
                  missing-available packet_dll code,
                  missing-nonempty packet_dll code ∙ sym (missing-available packet_dll code),
                  free_first held,
                )
          | inl f ↦ rw (f, check_runtime_available) (refl, refl, free_both held)
        ]
]
