-- ===== src/Monitor/Buses/Unseen.antt =====
-- What an allowance hides on the PCI bus and among the displays.
use plugkill.Prelude.{
  ◌≡◌, refl, arith, true, false, Option, none, some, List, [], ◌∷◌, map, contains, if◌then◌else◌,
  ◌==◌, list_eq, nat_eq, Text, Bool-cases, Option-cases, inl, inr, is_empty,
}
use plugkill.Edid.{EdidId}
use plugkill.Config.{Config}
use plugkill.Allowances.{DeviceRef, display, device_ref_eq}
use plugkill.Display.{DisplayConnector, DisplaySnapshot}
use plugkill.Monitor.Buses.{
  blank_allowed, holds_allowed, hide_allowed_displays, compare_display, check_display,
}

-- Every connector as it is, but with the monitor plugged in where the name is `port` and nothing
-- is connected.
abbrev pub plugged : Text → EdidId → DisplayConnector → DisplayConnector
plugged port id c =
    if c.connector == port
    then (if c.connected then c else record c { connected = true; edid = some id })
    else c

abbrev pub plug : Text → EdidId → DisplaySnapshot → DisplaySnapshot
plug port id s = record s { connectors = map (plugged port id) s.connectors }

-- A connector with nothing connected reports no monitor.
abbrev pub IsHonest : List DisplayConnector → Type 0
IsHonest [] = Unit
IsHonest (c ∷ cs) = (c.connected ≡ false → c.edid ≡ none) × IsHonest cs

blank-plugged :
    (allowed : List DeviceRef) (port : Text) (id : EdidId) (c : DisplayConnector)
    → contains allowed (display id) ≡ true
    → (c.connected ≡ false → c.edid ≡ none)
    → blank_allowed allowed (plugged port id c) ≡ blank_allowed allowed c
unfolding blank_allowed holds_allowed
blank-plugged allowed port id c h e = elim (Bool-cases (c.connector == port)) [
  | inr n ↦ ground arith
  | inl n ↦ elim (Bool-cases c.connected) [ inl k ↦ ground arith | inr k ↦ ground (arith, e k) ]
]

hide-plugged :
    (allowed : List DeviceRef) (port : Text) (id : EdidId) (cs : List DisplayConnector)
    → contains allowed (display id) ≡ true
    → IsHonest cs
    → map (blank_allowed allowed) (map (plugged port id) cs) ≡ map (blank_allowed allowed) cs
hide-plugged allowed port id [] h u = refl
hide-plugged allowed port id (c ∷ cs) h u =
    ground (arith, blank-plugged allowed port id c h u.0, hide-plugged allowed port id cs h u.1)

contains-not_empty :
    (allowed : List DeviceRef) (r : DeviceRef)
    → contains allowed r ≡ true
    → is_empty allowed ≡ false
unfolding contains
contains-not_empty [] r h = ground arith
contains-not_empty (a ∷ allowed) r h = refl

hide_plug :
    (allowed : List DeviceRef) (port : Text) (id : EdidId) (s : DisplaySnapshot)
    → contains allowed (display id) ≡ true
    → IsHonest s.connectors
    → hide_allowed_displays (plug port id s) allowed ≡ hide_allowed_displays s allowed
unfolding hide_allowed_displays
hide_plug allowed port id s h u = ground (
  arith,
  contains-not_empty allowed (display id) h,
  hide-plugged allowed port id s.connectors h u,
)

compare_plug :
    (cfg : Config) (base : DisplaySnapshot) (allowed : List DeviceRef) (port : Text) (id : EdidId)
    (s : DisplaySnapshot)
    → contains allowed (display id) ≡ true
    → IsHonest s.connectors
    → compare_display cfg base allowed (plug port id s) ≡ compare_display cfg base allowed s
unfolding compare_display
compare_plug cfg base allowed port id s h u = ground (arith, hide_plug allowed port id s h u)

-- Plugging an allowed monitor into an empty connector changes nothing: the check finds what it
-- would have found with the connector empty, whichever connector it is, and leaves the same
-- baseline, under either policy.
pub allowed_display_unseen :
    (cfg : Config) (baseline : Option DisplaySnapshot) (allowed : List DeviceRef)
    (display_snapshot : List Text → DisplaySnapshot) (port : Text) (id : EdidId)
    → contains allowed (display id) ≡ true
    → IsHonest (display_snapshot cfg.display.ignore).connectors
    → check_display cfg baseline allowed (λ ignore. plug port id (display_snapshot ignore))
      ≡ check_display cfg baseline allowed display_snapshot
unfolding check_display
allowed_display_unseen cfg baseline allowed display_snapshot port id h u =
    let same = λ (base : DisplaySnapshot).
      compare_plug cfg base allowed port id (display_snapshot cfg.display.ignore) h u in
    elim (Option-cases baseline) [
      | inl e ↦ ground arith
      | inr (base, e) ↦ ground (arith, same base)
    ]
