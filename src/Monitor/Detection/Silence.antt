-- ===== src/Monitor/Detection/Silence.antt =====
-- When `detect_violations` finds nothing.
use plugkill.Prelude.{
  ◌≡◌, ◌↔◌, arith, Bool, true, Option, none, some, List, Text, codes, ◌++◌, Result, ok, err,
  if◌then◌else◌, Bool-cases, Option-cases, Result-cases, inl, inr,
}
use plugkill.Config.{Config}
use plugkill.Allowances.{DeviceRef}
use plugkill.State.{event_violation}
use plugkill.Usb
use plugkill.Thunderbolt
use plugkill.SdCard
use plugkill.Monitor.Allowed.{
  build_usb_whitelist, build_thunderbolt_whitelist, build_sdcard_whitelist,
}
use plugkill.Monitor.Detection.{
  Baselines, Readings, map_option, detect_usb, detect_thunderbolt, detect_sdcard, detect_violations,
  usb_violation, thunderbolt_violation, sd_card_violation,
}

-- A watched bus with a baseline was read, and the comparison has no change.
abbrev pub IsQuiet : {B S C : Type 0} → Bool → Option B → Result S → (S → B → Option C) → Type 0
IsQuiet {B} {S} watched base reading compare =
    (b : B) → watched ≡ true → base ≡ some b → (s : S) × (reading ≡ ok s) × (compare s b ≡ none)

module _ {B S C V : Type 0} (watched : Bool) (base : Option B) (reading : Result S)
    (compare : S → B → Option C) (found : C → V) (failed : Text → V) where
  abbrev bus : Option V
  bus =
      if watched
      then elim base [
        | none ↦ none
        | some b ↦ elim reading [ ok s ↦ map_option found (compare s b) | err e ↦ some (failed e) ]
      ]
      else none

  bus-IsQuiet : (bus ≡ none) ↔ IsQuiet watched base reading compare
  bus-IsQuiet = (
    λ h b w e. elim (Result-cases reading) [
      | inl (x, r) ↦ ground arith
      | inr (s, r) ↦ (s, r, ground arith)
    ],
    λ q. elim (Bool-cases watched) [
      | inr w ↦ ground arith
      | inl w ↦ elim (Option-cases base) [
        | inl e ↦ ground arith
        | inr (b, e) ↦ let (s, r, c) = q b w e in ground arith
      ]
    ],
  )

detect_usb-IsQuiet :
    (cfg : Config) (bl : Baselines) (allowed : List DeviceRef) (readings : Readings)
    → (detect_usb cfg bl allowed readings.usb ≡ none)
      ↔ IsQuiet cfg.general.watch_usb bl.usb readings.usb
          (λ s b. Usb.detect_changes s b (build_usb_whitelist cfg allowed))
unfolding detect_usb
detect_usb-IsQuiet cfg bl allowed readings =
    bus-IsQuiet cfg.general.watch_usb bl.usb readings.usb
      (λ s b. Usb.detect_changes s b (build_usb_whitelist cfg allowed)) (usb_violation bl.names)
      (λ e.
        event_violation (codes "usb")
          (codes "USB VIOLATION: enumeration failure (possible tampering): " ++ e))

detect_thunderbolt-IsQuiet :
    (cfg : Config) (bl : Baselines) (allowed : List DeviceRef) (readings : Readings)
    → (detect_thunderbolt cfg bl allowed readings.thunderbolt ≡ none)
      ↔ IsQuiet cfg.general.watch_thunderbolt bl.thunderbolt readings.thunderbolt
          (λ s b. Thunderbolt.detect_changes s b (build_thunderbolt_whitelist cfg allowed))
unfolding detect_thunderbolt
detect_thunderbolt-IsQuiet cfg bl allowed readings =
    bus-IsQuiet cfg.general.watch_thunderbolt bl.thunderbolt readings.thunderbolt
      (λ s b. Thunderbolt.detect_changes s b (build_thunderbolt_whitelist cfg allowed))
      (thunderbolt_violation bl.names)
      (λ e.
        event_violation (codes "thunderbolt")
          (codes "THUNDERBOLT VIOLATION: enumeration failure (possible tampering): " ++ e))

detect_sdcard-IsQuiet :
    (cfg : Config) (bl : Baselines) (allowed : List DeviceRef) (readings : Readings)
    → (detect_sdcard cfg bl allowed readings.sdcard ≡ none)
      ↔ IsQuiet cfg.general.watch_sdcard bl.sdcard readings.sdcard
          (λ s b. SdCard.detect_changes s b (build_sdcard_whitelist cfg allowed))
unfolding detect_sdcard
detect_sdcard-IsQuiet cfg bl allowed readings =
    bus-IsQuiet cfg.general.watch_sdcard bl.sdcard readings.sdcard
      (λ s b. SdCard.detect_changes s b (build_sdcard_whitelist cfg allowed))
      (sd_card_violation bl.names)
      (λ e.
        event_violation (codes "sdcard")
          (codes "SD CARD VIOLATION: enumeration failure (possible tampering): " ++ e))

-- `detect_violations` finds nothing exactly when each watched bus that has a baseline was read and
-- its comparison, with the configuration's whitelist and the allowances, has no change: a bus that
-- cannot be read is a violation.
pub detect_violations-IsQuiet :
    (cfg : Config) (bl : Baselines) (allowed : List DeviceRef) (readings : Readings)
    → (detect_violations cfg bl allowed readings ≡ none) ↔ (
        IsQuiet cfg.general.watch_usb bl.usb readings.usb
          (λ s b. Usb.detect_changes s b (build_usb_whitelist cfg allowed))
        × IsQuiet cfg.general.watch_thunderbolt bl.thunderbolt readings.thunderbolt
            (λ s b. Thunderbolt.detect_changes s b (build_thunderbolt_whitelist cfg allowed))
        × IsQuiet cfg.general.watch_sdcard bl.sdcard readings.sdcard
            (λ s b. SdCard.detect_changes s b (build_sdcard_whitelist cfg allowed)))
unfolding detect_violations
detect_violations-IsQuiet cfg bl allowed readings =
    let u = detect_usb-IsQuiet cfg bl allowed readings in
    let t = detect_thunderbolt-IsQuiet cfg bl allowed readings in
    let s = detect_sdcard-IsQuiet cfg bl allowed readings in
    (
      λ h. (u.0 (ground arith), t.0 (ground arith), s.0 (ground arith)),
      λ (a, b, c). let x = u.1 a in let y = t.1 b in let z = s.1 c in ground (arith, x, y, z),
    )
