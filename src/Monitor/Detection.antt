-- ===== src/Monitor/Detection.antt =====
-- `detect_violations` of crates/plugkill/src/main.rs, over the three whitelisted buses, and the
-- baselines of crates/plugkill-core/src/state.rs. What each enumeration returns is an argument, with
-- a failure's text. A map of names is an association list.
pub mod Silence
use plugkill.Prelude.{
  ℕ, Bool, true, false, Option, none, some, List, [], ◌∷◌, ◌++◌, get, to_dec, if◌then◌else◌,
  or_else, Eq, list_eq, nat_eq, pair_eq, Text, codes, Result, ok, err,
}
use plugkill.Config.{Config}
use plugkill.Allowances.{DeviceRef, usb, thunderbolt, sd_card}
use plugkill.State.{Violation, device_violation, event_violation}
use plugkill.Usb
use plugkill.Usb.{UsbDeviceId, DeviceSnapshot, DeviceChange, count_increased, count_decreased}
use plugkill.Thunderbolt
use plugkill.Thunderbolt.{ThunderboltSnapshot, ThunderboltChange}
use plugkill.SdCard
use plugkill.SdCard.{SdCardSnapshot, SdCardChange}
use plugkill.Pci.{PciSnapshot}
use plugkill.Display.{DisplaySnapshot}
use plugkill.Power.{PowerState}
use plugkill.Network.{NetworkSnapshot}
use plugkill.Lid.{LidState}
use plugkill.Monitor.Allowed.{
  build_usb_whitelist, build_thunderbolt_whitelist, build_sdcard_whitelist,
}

-- The names captured with the baselines.
pub record DeviceNames : Type 0 where
  pub usb : List ((Text × Text) × Text)
  pub thunderbolt : List (Text × Text)
  pub sdcard : List (Text × Text)

-- The baselines of every bus.
pub record Baselines : Type 0 where
  pub usb : Option DeviceSnapshot
  pub thunderbolt : Option ThunderboltSnapshot
  pub sdcard : Option SdCardSnapshot
  pub power : Option PowerState
  pub network : Option NetworkSnapshot
  pub lid : Option LidState
  pub pci : Option PciSnapshot
  pub display : Option DisplaySnapshot
  pub names : DeviceNames

-- What the enumerations return.
pub record Readings : Type 0 where
  pub usb : Result DeviceSnapshot
  pub thunderbolt : Result ThunderboltSnapshot
  pub sdcard : Result SdCardSnapshot

abbrev pub usb_id_text : UsbDeviceId → Text
usb_id_text id = id.vendor_id ++ b':' ∷ id.product_id

unfoldable pub usb_change_text : DeviceChange → Text
unfolding to_dec
usb_change_text (Usb.added id) = codes "unauthorized device added: " ++ usb_id_text id
usb_change_text (Usb.removed id) = codes "device removed: " ++ usb_id_text id
usb_change_text (count_increased device expected actual) =
    codes "device count increased for "
    ++ (usb_id_text device
        ++ (codes ": expected <=" ++ (to_dec expected ++ (codes ", got " ++ to_dec actual))))
usb_change_text (count_decreased device expected actual) =
    codes "device count decreased for "
    ++ (usb_id_text device
        ++ (codes ": expected " ++ (to_dec expected ++ (codes ", got " ++ to_dec actual))))

unfoldable pub thunderbolt_change_text : ThunderboltChange → Text
thunderbolt_change_text (Thunderbolt.added id) = codes "unauthorized device added: " ++ id.unique_id
thunderbolt_change_text (Thunderbolt.removed id) = codes "device removed: " ++ id.unique_id

unfoldable pub sd_card_change_text : SdCardChange → Text
sd_card_change_text (SdCard.added id) = codes "unauthorized device added: " ++ id.serial
sd_card_change_text (SdCard.removed id) = codes "device removed: " ++ id.serial

unfoldable pub shown : Option Text → Text
shown none = []
shown (some name) = codes " [" ++ (name ++ codes "]")

-- The appearances, as the `matches!` of each bus has them.
unfoldable pub usb_appeared : DeviceChange → Bool
usb_appeared (Usb.added id) = true
usb_appeared (count_increased device expected actual) = true
usb_appeared _ = false

unfoldable pub thunderbolt_appeared : ThunderboltChange → Bool
thunderbolt_appeared (Thunderbolt.added id) = true
thunderbolt_appeared _ = false

unfoldable pub sd_card_appeared : SdCardChange → Bool
sd_card_appeared (SdCard.added id) = true
sd_card_appeared _ = false

unfoldable pub usb_violation : DeviceNames → DeviceChange → Violation
unfolding device_violation get shown usb_change_text usb_appeared Usb.device_id
usb_violation names change =
    let id = Usb.device_id change in
    let name = get (id.vendor_id, id.product_id) names.usb in
    device_violation (codes "USB VIOLATION: " ++ (usb_change_text change ++ shown name)) (usb id)
      name (usb_appeared change)

unfoldable pub thunderbolt_violation : DeviceNames → ThunderboltChange → Violation
unfolding device_violation get shown thunderbolt_change_text thunderbolt_appeared
    Thunderbolt.device_id
thunderbolt_violation names change =
    let id = Thunderbolt.device_id change in
    let name = get id.unique_id names.thunderbolt in
    device_violation
      (codes "THUNDERBOLT VIOLATION: " ++ (thunderbolt_change_text change ++ shown name))
      (thunderbolt id) name (thunderbolt_appeared change)

unfoldable pub sd_card_violation : DeviceNames → SdCardChange → Violation
unfolding device_violation get shown sd_card_change_text sd_card_appeared SdCard.device_id
sd_card_violation names change =
    let id = SdCard.device_id change in
    let name = get id.serial names.sdcard in
    device_violation (codes "SD CARD VIOLATION: " ++ (sd_card_change_text change ++ shown name))
      (sd_card id) name (sd_card_appeared change)

abbrev pub map_option : {A B : Type 0} → (A → B) → Option A → Option B
map_option f none = none
map_option f (some a) = some (f a)

unfoldable pub detect_usb :
    Config → Baselines → List DeviceRef → Result DeviceSnapshot → Option Violation
unfolding usb_violation event_violation build_usb_whitelist Usb.detect_changes
detect_usb cfg bl allowed reading =
    if cfg.general.watch_usb
    then elim bl.usb [
      | none ↦ none
      | some baseline ↦ elim reading [
        | ok current ↦
            map_option (usb_violation bl.names)
              (Usb.detect_changes current baseline (build_usb_whitelist cfg allowed))
        | err e ↦ some (
            event_violation (codes "usb")
              (codes "USB VIOLATION: enumeration failure (possible tampering): " ++ e))
      ]
    ]
    else none

unfoldable pub detect_thunderbolt :
    Config → Baselines → List DeviceRef → Result ThunderboltSnapshot → Option Violation
unfolding thunderbolt_violation event_violation build_thunderbolt_whitelist
    Thunderbolt.detect_changes
detect_thunderbolt cfg bl allowed reading =
    if cfg.general.watch_thunderbolt
    then elim bl.thunderbolt [
      | none ↦ none
      | some tb_base ↦ elim reading [
        | ok current ↦
            map_option (thunderbolt_violation bl.names)
              (Thunderbolt.detect_changes current tb_base (build_thunderbolt_whitelist cfg allowed))
        | err e ↦ some (
            event_violation (codes "thunderbolt")
              (codes "THUNDERBOLT VIOLATION: enumeration failure (possible tampering): " ++ e))
      ]
    ]
    else none

unfoldable pub detect_sdcard :
    Config → Baselines → List DeviceRef → Result SdCardSnapshot → Option Violation
unfolding sd_card_violation event_violation build_sdcard_whitelist SdCard.detect_changes
detect_sdcard cfg bl allowed reading =
    if cfg.general.watch_sdcard
    then elim bl.sdcard [
      | none ↦ none
      | some sd_base ↦ elim reading [
        | ok current ↦
            map_option (sd_card_violation bl.names)
              (SdCard.detect_changes current sd_base (build_sdcard_whitelist cfg allowed))
        | err e ↦ some (
            event_violation (codes "sdcard")
              (codes "SD CARD VIOLATION: enumeration failure (possible tampering): " ++ e))
      ]
    ]
    else none

-- The first violation, in the order of the buses.
unfoldable pub detect_violations : Config → Baselines → List DeviceRef → Readings → Option Violation
unfolding detect_usb detect_thunderbolt detect_sdcard
detect_violations cfg bl allowed readings = or_else (detect_usb cfg bl allowed readings.usb) (
    or_else (detect_thunderbolt cfg bl allowed readings.thunderbolt)
      (detect_sdcard cfg bl allowed readings.sdcard))
