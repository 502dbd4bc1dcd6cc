-- ===== src/Examples.antt =====
-- The theorems that have hypotheses, at concrete inputs.
mod Commands
mod Polls
mod Wire
mod Destruction
mod Graces
mod Recapture
mod Desk
use plugkill.Prelude.{
  err, count, ◌+◌, ◌^◌, ℕ, zero, suc, ◌≡◌, ◌≢◌, ◌<◌, ◌≤◌, ◌↔◌, ◌⊎◌, inl, inr, refl, Bool, true,
  false, Option, none, some, List, [], ◌∷◌, arith, ltb, is_some, if◌then◌else◌, ◌==◌, Text, codes,
  Memᴰ, ok, list_beq, option_beq, from_secs, find, contains, not, get, pair_beq, list_eq, nat_eq,
  All,
}
use plugkill.Edid.{EdidId}
use plugkill.Config.{default_config}
use plugkill.Monitor.Allowed.{
  add_entries, skip_usb, build_usb_whitelist, build_thunderbolt_whitelist, build_sdcard_whitelist,
}
use plugkill.Monitor.Detection.{Baselines, Readings, detect_violations}
use plugkill.Monitor.Detection.Silence.{IsQuiet, detect_violations-IsQuiet}
use plugkill.Monitor.Allowed.Revoked.{revoked_reads_as_new}
use plugkill.Usb
use plugkill.Usb.{UsbDeviceId, DeviceSnapshot, count_of, usb_device_id_eq}
use plugkill.Usb.Detect.{IsSnapshot, usb_silence, usb_report}
use plugkill.Thunderbolt
use plugkill.Thunderbolt.{ThunderboltDeviceId, ThunderboltSnapshot}
use plugkill.Thunderbolt.Detect.{thunderbolt_silence, thunderbolt_report}
use plugkill.SdCard
use plugkill.SdCard.{SdCardDeviceId, SdCardSnapshot}
use plugkill.SdCard.Detect.{sd_card_silence, sd_card_report}
use plugkill.Pci
use plugkill.Pci.{PciSnapshot}
use plugkill.Pci.Detect.{pci_silence, pci_report}
use plugkill.Display
use plugkill.Display.{DisplayConnector, DisplaySnapshot, get_connector}
use plugkill.Display.Detect.{IsUnchanged, display_silence, display_repeated_name}
use plugkill.Allowances.Table.{find_entry, entry, IsTable, entry-add, entry-remove, entry-sweep}
use plugkill.Allowances.Warn.{flagged, warns_once}
use plugkill.Allowances.{
  device_ref_beq, due_to_warn, due_in, DeviceRef, usb, pci, device_ref_eq, promoted, Allowance,
  AllowanceTable, new_allowance, new_table, add, remove, sweep, is_active,
}

abbrev receiver : UsbDeviceId
receiver = record { vendor_id = codes "046d"; product_id = codes "c52b" }

abbrev stick : UsbDeviceId
stick = record { vendor_id = codes "0781"; product_id = codes "5567" }

abbrev desk : DeviceSnapshot
desk = record { devices = (receiver, 2) ∷ [] }

abbrev desk_and_stick : DeviceSnapshot
desk_and_stick = record { devices = (receiver, 2) ∷ (stick, 1) ∷ [] }

abbrev no_usb : DeviceSnapshot
no_usb = record { devices = [] }

desk-IsSnapshot : IsSnapshot desk
unfolding get
desk-IsSnapshot = record { unique = (refl, tt); counted = (omega arith, tt) }

desk_and_stick-IsSnapshot : IsSnapshot desk_and_stick
unfolding list_beq get pair_beq
desk_and_stick-IsSnapshot = record {
  unique = (refl, (refl, tt));
  counted = (omega arith, (omega arith, tt));
}

usb_silence_example :
    (Usb.detect_changes desk desk no_usb ≡ none) ↔ Usb.Detect.IsAccepted desk desk no_usb
usb_silence_example = usb_silence desk desk no_usb desk-IsSnapshot desk-IsSnapshot

abbrev dock : ThunderboltSnapshot
dock = record { devices = record { unique_id = codes "d030-8087" } ∷ [] }

abbrev no_dock : ThunderboltSnapshot
no_dock = record { devices = [] }

abbrev card : SdCardSnapshot
card = record { devices = record { serial = codes "0x1a2b" } ∷ [] }

abbrev no_card : SdCardSnapshot
no_card = record { devices = [] }

abbrev gpu : PciSnapshot
gpu = record { devices = codes "0000:01:00.0" ∷ [] }

abbrev no_gpu : PciSnapshot
no_gpu = record { devices = [] }

abbrev port : Bool → DisplayConnector
port connected = record { connector = codes "HDMI-A-1"; connected = connected; edid = none }

abbrev one_port : Bool → DisplaySnapshot
one_port connected = record { connectors = port connected ∷ []; opaque_generation = none }

abbrev two_cards : DisplaySnapshot
two_cards = record { connectors = port true ∷ port false ∷ []; opaque_generation = none }

display_repeated_name_example : Display.detect_changes two_cards two_cards ≢ none
unfolding get_connector list_beq
display_repeated_name_example =
    display_repeated_name two_cards (port false) (port true) (Memᴰ.tail (Memᴰ.head refl)) refl
      (λ h. ground arith)

abbrev grant : DeviceRef → Option ℕ → Allowance
grant id ttl = new_allowance id promoted 100 ttl

abbrev stick_ref : DeviceRef
stick_ref = usb stick

abbrev card_ref : DeviceRef
card_ref = pci (codes "0000:01:00.0")

abbrev two_grants : AllowanceTable
two_grants = record { entries = grant stick_ref (some 50) ∷ grant card_ref none ∷ [] }

two_grants-IsTable : IsTable two_grants
unfolding find_entry device_ref_beq new_allowance
two_grants-IsTable = (refl, (refl, tt))

none_counts :
    (id : UsbDeviceId) → count (add_entries default_config.whitelist.devices []) id + 1 + 0 < 2 ^ 32
unfolding default_config add_entries get count
none_counts id = omega arith

desk_counts : (id : UsbDeviceId) → count_of desk_and_stick id < 2 ^ 32
unfolding get count_of count
desk_counts id = ground arith

revoked_reads_as_new_example :
    (Usb.detect_changes desk_and_stick
        (skip_usb desk_and_stick (stick_ref ∷ []))
        (build_usb_whitelist default_config (stick_ref ∷ []))
      ≡ none)
    × (Usb.detect_changes desk_and_stick
          (skip_usb desk_and_stick (stick_ref ∷ []))
          (build_usb_whitelist default_config [])
        ≢ none)
unfolding default_config add_entries get list_beq device_ref_beq contains count_of pair_beq
revoked_reads_as_new_example =
    revoked_reads_as_new desk_and_stick default_config (stick_ref ∷ []) [] stick
      desk_and_stick-IsSnapshot desk_counts none_counts (omega arith) refl refl refl

abbrev desk_baselines : Baselines
desk_baselines = record {
  usb = some desk;
  thunderbolt = some no_dock;
  sdcard = none;
  power = none;
  network = none;
  lid = none;
  pci = none;
  display = none;
  names = record { usb = []; thunderbolt = []; sdcard = [] };
}

abbrev readings : Readings
readings = record {
  usb = ok desk;
  thunderbolt = err (codes "no such directory");
  sdcard = ok no_card;
}

detect_violations-IsQuiet_example :
    (detect_violations default_config desk_baselines [] readings ≡ none) ↔ (
      IsQuiet default_config.general.watch_usb desk_baselines.usb readings.usb
        (λ s b. Usb.detect_changes s b (build_usb_whitelist default_config []))
      × IsQuiet default_config.general.watch_thunderbolt desk_baselines.thunderbolt
          readings.thunderbolt
          (λ s b. Thunderbolt.detect_changes s b (build_thunderbolt_whitelist default_config []))
      × IsQuiet default_config.general.watch_sdcard desk_baselines.sdcard readings.sdcard
          (λ s b. SdCard.detect_changes s b (build_sdcard_whitelist default_config [])))
detect_violations-IsQuiet_example =
    detect_violations-IsQuiet default_config desk_baselines [] readings
