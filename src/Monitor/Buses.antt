-- ===== src/Monitor/Buses.antt =====
-- crates/plugkill/src/main.rs: the PCI and display checks of an iteration, and the blanking of
-- allowed monitors. What an enumeration returns is an argument.
pub mod Unseen
pub mod Removed
use plugkill.Prelude.{
  Bool, true, false, not, Option, none, some, List, [], ◌∷◌, ◌++◌, map, contains, find,
  if◌then◌else◌, ◌==◌, list_eq, nat_eq, Text, codes, is_empty, Result, ok, err, ◌>>=◌,
}
use plugkill.Edid.{EdidId}
use plugkill.Config
use plugkill.Config.{Config}
use plugkill.Allowances.{DeviceRef, pci, display, device_ref_eq, edid_selector}
use plugkill.State.{Violation, device_violation, event_violation}
use plugkill.Pci
use plugkill.Pci.{PciSnapshot, PciChange, enumerate}
use plugkill.Display
use plugkill.Display.{
  DisplayConnector, DisplaySnapshot, DisplayChange, appeared, disappeared, connected_to,
  disconnected, replaced, topology_changed,
}
use plugkill.Monitor.Allowed.{pci_ignore}

-- `enumerate_pci`, over what the directory walk returned.
unfoldable pub enumerate_pci : Result (List Text) → List Text → Result PciSnapshot
unfolding enumerate
enumerate_pci (ok selectors) ignore = ok (enumerate selectors ignore)
enumerate_pci (err e) ignore = err e

unfoldable pub pci_change_text : PciChange → Text
pci_change_text (Pci.added s) = codes "unauthorized device added: " ++ s
pci_change_text (Pci.removed s) = codes "device removed: " ++ s

unfoldable pub pci_violation : PciChange → Violation
unfolding device_violation event_violation pci_change_text
pci_violation (Pci.added selector) =
    device_violation (codes "PCI VIOLATION: " ++ pci_change_text (Pci.added selector))
      (pci selector) none true
pci_violation (Pci.removed selector) =
    event_violation (codes "pci")
      (codes "PCI VIOLATION: " ++ pci_change_text (Pci.removed selector))

-- What the check does with a reading: the violation, and the baseline it leaves.
unfoldable pub compare_pci : Config → PciSnapshot → PciSnapshot → Option Violation × PciSnapshot
unfolding pci_violation Pci.detect_changes
compare_pci cfg baseline current = elim (Pci.detect_changes current baseline) [
  | none ↦ (none, baseline)
  | some change ↦ elim cfg.pci.policy [
    | Config.PciPolicy.monitor ↦ (none, current)
    | Config.PciPolicy.kill ↦ (some (pci_violation change), baseline)
  ]
]

unfoldable pub check_pci :
    Config
    → Option PciSnapshot
    → List DeviceRef
    → Result (List Text)
    → Option Violation × Option PciSnapshot
unfolding compare_pci enumerate_pci pci_ignore
check_pci cfg baseline allowed reading =
    if not cfg.general.watch_pci then (none, baseline) else elim baseline [
      | none ↦ (none, none)
      | some base ↦ elim (enumerate_pci reading (pci_ignore cfg allowed)) [
        | err e ↦ (none, some base)
        | ok current ↦ let (found, left) = compare_pci cfg base current in (found, some left)
      ]
    ]

-- `c.edid.as_ref().is_some_and(..)`
unfoldable pub holds_allowed : List DeviceRef → Option EdidId → Bool
unfolding contains
holds_allowed allowed none = false
holds_allowed allowed (some e) = contains allowed (display e)

unfoldable pub blank_allowed : List DeviceRef → DisplayConnector → DisplayConnector
unfolding holds_allowed
blank_allowed allowed c =
    if holds_allowed allowed c.edid then record c { connected = false; edid = none } else c

unfoldable pub hide_allowed_displays : DisplaySnapshot → List DeviceRef → DisplaySnapshot
unfolding blank_allowed
hide_allowed_displays snapshot allowed =
    if is_empty allowed
    then snapshot
    else record snapshot { connectors = map (blank_allowed allowed) snapshot.connectors }

unfoldable pub identity_at : DisplaySnapshot → Text → Option EdidId
identity_at current connector =
    elim (find (λ (k : DisplayConnector). k.connector == connector) current.connectors) [
      | none ↦ none
      | some k ↦ k.edid
    ]

unfoldable pub display_identity : DisplayChange → DisplaySnapshot → Option EdidId
unfolding identity_at
display_identity (replaced connector now) current = now
display_identity (appeared c) current = identity_at current c
display_identity (connected_to c) current = identity_at current c
display_identity _ current = none

unfoldable pub display_change_text : DisplayChange → Text
unfolding edid_selector
display_change_text (appeared c) = c ++ codes " appeared"
display_change_text (disappeared c) = c ++ codes " disappeared"
display_change_text (connected_to c) = c ++ codes " connected"
display_change_text (disconnected c) = c ++ codes " disconnected"
display_change_text (replaced c none) = c ++ codes " now an unidentified monitor"
display_change_text (replaced c (some id)) =
    if not (is_empty id.name)
    then c ++ (codes " now " ++ (edid_selector id ++ (codes " (" ++ (id.name ++ codes ")"))))
    else c ++ (codes " now " ++ edid_selector id)
display_change_text topology_changed = codes "display topology changed"

unfoldable pub display_violation : DisplayChange → DisplaySnapshot → Violation
unfolding device_violation event_violation display_change_text display_identity
display_violation change current =
    let description = codes "DISPLAY VIOLATION: " ++ display_change_text change in
    elim (display_identity change current) [
      | some id ↦
          device_violation description (display id)
            (if is_empty id.name then none else some id.name) true
      | none ↦ event_violation (codes "display") description
    ]

-- Both sides are blanked; under the monitor policy the blanked reading becomes the baseline.
unfoldable pub compare_display :
    Config → DisplaySnapshot → List DeviceRef → DisplaySnapshot → Option Violation × DisplaySnapshot
unfolding hide_allowed_displays display_violation Display.detect_changes
compare_display cfg baseline allowed reading =
    let current = hide_allowed_displays reading allowed in
    elim (Display.detect_changes current (hide_allowed_displays baseline allowed)) [
      | none ↦ (none, baseline)
      | some change ↦ elim cfg.display.policy [
        | Config.DisplayPolicy.monitor ↦ (none, current)
        | Config.DisplayPolicy.kill ↦ (some (display_violation change current), baseline)
      ]
    ]

unfoldable pub check_display :
    Config
    → Option DisplaySnapshot
    → List DeviceRef
    → (List Text → DisplaySnapshot)
    → Option Violation × Option DisplaySnapshot
unfolding compare_display
check_display cfg baseline allowed display_snapshot =
    if not cfg.general.watch_display then (none, baseline) else elim baseline [
      | none ↦ (none, none)
      | some base ↦
          let (found, left) =
            compare_display cfg base allowed (display_snapshot cfg.display.ignore) in
          (found, some left)
    ]
