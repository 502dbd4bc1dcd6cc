-- ===== src/Monitor/Capture.antt =====
-- crates/plugkill/src/main.rs: `capture_baselines` and `skip_allowed`. What the hardware and the
-- operating system return is an argument, the names of each bus included.
pub mod Silence
pub mod Events
pub mod Standing
use plugkill.Prelude.{
  ℕ, [], Bool, true, false, not, ◌&&◌, Option, none, some, List, is_empty, is_some, if◌then◌else◌,
  Text, Result, ok, err,
}
use plugkill.Config.{Config}
use plugkill.Allowances.{DeviceRef}
use plugkill.State.{DaemonState}
use plugkill.Usb.{DeviceSnapshot}
use plugkill.Thunderbolt.{ThunderboltSnapshot}
use plugkill.SdCard.{SdCardSnapshot}
use plugkill.Pci.{PciSnapshot}
use plugkill.Display.{DisplaySnapshot}
use plugkill.Power.{PowerState}
use plugkill.Network.{NetworkSnapshot}
use plugkill.Lid.{LidState}
use plugkill.Monitor.Allowed.{allowed_ids, pci_ignore, skip_usb, skip_thunderbolt, skip_sdcard}
use plugkill.Monitor.Detection.{Baselines, Readings, DeviceNames, map_option}
use plugkill.Monitor.Buses.{enumerate_pci, hide_allowed_displays}

-- What the buses answer at one moment.
pub record Hardware : Type 0 where
  pub readings : Readings
  pub names : DeviceNames
  pub power : PowerState
  pub locked : Option Bool
  pub network : List Text → NetworkSnapshot
  pub lid : LidState
  pub pci : Result (List Text)
  pub display : List Text → DisplaySnapshot

-- A bus that is switched off loses its baseline.
abbrev pub kept : {A : Type 0} → Bool → Option A → Option A
kept watched baseline = if watched then baseline else none

unfoldable pub clear_unwatched : Config → Baselines → Baselines
clear_unwatched cfg bl = record {
  usb = kept cfg.general.watch_usb bl.usb;
  thunderbolt = kept cfg.general.watch_thunderbolt bl.thunderbolt;
  sdcard = kept cfg.general.watch_sdcard bl.sdcard;
  power = kept cfg.general.watch_power bl.power;
  network = kept cfg.general.watch_network bl.network;
  lid = kept cfg.general.watch_lid bl.lid;
  pci = kept cfg.general.watch_pci bl.pci;
  display = kept cfg.general.watch_display bl.display;
  names = bl.names;
}

-- The condition of each capture.
abbrev pub captures : {A : Type 0} → Bool → Bool → Option A → Bool
captures watched only_missing baseline = watched && not (only_missing && is_some baseline)

-- The outcome of an enumeration, where a failure leaves no baseline.
abbrev pub from_reading : {A : Type 0} → Result A → Option A
from_reading (ok a) = some a
from_reading (err e) = none

-- The names that go with an enumeration: none where it failed.
abbrev pub names_of : {A B : Type 0} → Result A → List B → List B
names_of (ok a) names = names
names_of (err e) names = []

-- `capture_usb_baseline` and its `match`: a failure leaves the names.
unfoldable pub capture_usb : Hardware → Baselines → Baselines
capture_usb h bl = elim h.readings.usb [
  | ok s ↦ record bl { usb = some s; names = record bl.names { usb = h.names.usb } }
  | err e ↦ record bl { usb = none }
]

-- `capture_thunderbolt_baseline` and the assignments of its result
unfoldable pub capture_thunderbolt : Hardware → Baselines → Baselines
capture_thunderbolt h bl = record bl {
  thunderbolt = from_reading h.readings.thunderbolt;
  names = record bl.names { thunderbolt = names_of h.readings.thunderbolt h.names.thunderbolt };
}

unfoldable pub capture_sdcard : Hardware → Baselines → Baselines
capture_sdcard h bl = record bl {
  sdcard = from_reading h.readings.sdcard;
  names = record bl.names { sdcard = names_of h.readings.sdcard h.names.sdcard };
}

-- A failure leaves what is there.
unfoldable pub capture_pci :
    Config → List DeviceRef → Hardware → Option PciSnapshot → Option PciSnapshot
unfolding enumerate_pci pci_ignore
capture_pci cfg allowed h baseline = elim (enumerate_pci h.pci (pci_ignore cfg allowed)) [
  | ok s ↦ some s
  | err e ↦ baseline
]

unfoldable pub skip_allowed : Baselines → List DeviceRef → Bool → Baselines
unfolding skip_usb skip_thunderbolt skip_sdcard hide_allowed_displays
skip_allowed bl allowed usb_captured = if is_empty allowed then bl else record bl {
  usb = if usb_captured then map_option (λ s. skip_usb s allowed) bl.usb else bl.usb;
  thunderbolt = map_option (λ s. skip_thunderbolt s allowed) bl.thunderbolt;
  sdcard = map_option (λ s. skip_sdcard s allowed) bl.sdcard;
  display = map_option (λ s. hide_allowed_displays s allowed) bl.display;
}

-- The captures, in the source's order; each is by its own bus.
unfoldable pub capture_devices : Config → List DeviceRef → Hardware → Bool → Baselines → Baselines
unfolding capture_usb capture_thunderbolt capture_sdcard
capture_devices cfg allowed h only_missing bl =
    let g = cfg.general in
    let bl1 = if captures g.watch_usb only_missing bl.usb then capture_usb h bl else bl in
    let bl2 =
      if captures g.watch_thunderbolt only_missing bl1.thunderbolt
      then capture_thunderbolt h bl1
      else bl1 in
    if captures g.watch_sdcard only_missing bl2.sdcard then capture_sdcard h bl2 else bl2

unfoldable pub capture_events : Config → List DeviceRef → Hardware → Bool → Baselines → Baselines
unfolding capture_pci
capture_events cfg allowed h only_missing bl =
    let g = cfg.general in
    record bl {
      power = if captures g.watch_power only_missing bl.power then some h.power else bl.power;
      network =
          if captures g.watch_network only_missing bl.network
          then some (h.network cfg.network.interfaces)
          else bl.network;
      lid = if captures g.watch_lid only_missing bl.lid then some h.lid else bl.lid;
      pci =
          if captures g.watch_pci only_missing bl.pci
          then capture_pci cfg allowed h bl.pci
          else bl.pci;
      display =
          if captures g.watch_display only_missing bl.display
          then some (h.display cfg.display.ignore)
          else bl.display;
    }

-- The state of a bus that is captured starts again.
unfoldable pub reset_power : DaemonState → DaemonState
reset_power st = record st {
  power_unplug_at = none;
  power_trigger_once_fired = false;
  power_grace = none;
}

unfoldable pub reset_network : DaemonState → DaemonState
reset_network st = record st { network_link_down_at = none; network_grace = none }

unfoldable pub reset_lid : DaemonState → DaemonState
reset_lid st = record st { lid_close_at = none; lid_grace = none }

unfoldable pub reset_captured : Config → Bool → Baselines → DaemonState → DaemonState
unfolding reset_power reset_network reset_lid
reset_captured cfg only_missing bl st =
    let g = cfg.general in
    let st1 = if captures g.watch_power only_missing bl.power then reset_power st else st in
    let st2 = if captures g.watch_network only_missing bl.network then reset_network st1 else st1 in
    if captures g.watch_lid only_missing bl.lid then reset_lid st2 else st2

unfoldable pub capture_baselines :
    Config → Baselines → DaemonState → Hardware → Bool → ℕ → Baselines × DaemonState
unfolding allowed_ids clear_unwatched capture_devices capture_events skip_allowed reset_captured
capture_baselines cfg bl st h only_missing now =
    let allowed = allowed_ids st now in
    let cleared = clear_unwatched cfg bl in
    (
      skip_allowed
          (capture_events cfg allowed h only_missing
            (capture_devices cfg allowed h only_missing cleared))
          allowed (captures cfg.general.watch_usb only_missing cleared.usb),
      reset_captured cfg only_missing cleared st,
    )
