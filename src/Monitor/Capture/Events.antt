-- ===== src/Monitor/Capture/Events.antt =====
-- A fresh baseline against the reading it was captured from: power, network, lid, PCI, displays.
use plugkill.Prelude.{
  ℕ, ◌≡◌, refl, arith, Bool, Option, none, some, List, [], ◌∷◌, map, All, All-of_mem, UniqueKeys,
  get, get-mem, find, find_map, find_map-none, ◌==◌, nat_eq, list_eq, option_eq, Text, Bool-cases,
  inl, inr, ap,
}
use plugkill.Edid.{EdidId, edid_id_eq}
use plugkill.Config.{Config}
use plugkill.Allowances.{DeviceRef}
use plugkill.State.{DaemonState}
use plugkill.Pci.{PciSnapshot}
use plugkill.Pci.Detect.{pci_silence}
use plugkill.Display
use plugkill.Display.{DisplayConnector, DisplaySnapshot, get_connector}
use plugkill.Display.Detect.{IsNamed, SameReading, display_silence}
use plugkill.Power.{PowerState, check_power, acting, on_battery}
use plugkill.Network.{
  LinkState, up, down, unknown, NetworkSnapshot, detect_link_down, check_link, is_up, is_lost,
}
use plugkill.Network.Check.{check_network}
use plugkill.Lid.{LidState, check_lid}
use plugkill.Monitor.Buses.{
  hide_allowed_displays, blank_allowed, holds_allowed, compare_pci, compare_display,
}

-- The part of the state that the three checks leave alone.
abbrev pub SameAllowances : DaemonState → DaemonState → Type 0
SameAllowances st st' = st'.allowances ≡ st.allowances

pub power_fresh :
    (cfg : Config) (current : PowerState) (locked : Option Bool) (st : DaemonState) (now : ℕ)
    → (check_power cfg (some current) current locked st now).0 ≡ none
unfolding check_power acting on_battery
power_fresh cfg current locked st now = ground arith

link_fresh :
    (s : NetworkSnapshot) (e : Text × LinkState)
    → get e.0 s.interfaces ≡ some e.1
    → check_link s e ≡ none
unfolding check_link is_up is_lost
link_fresh s (iface, up) h = ground arith
link_fresh s (iface, down) h = ground arith
link_fresh s (iface, unknown) h = ground arith

detect_link_fresh : (s : NetworkSnapshot) → UniqueKeys s.interfaces → detect_link_down s s ≡ none
unfolding detect_link_down
detect_link_fresh s u = (find_map-none (check_link s) s.interfaces).1 (
    All-of_mem (λ e. check_link s e ≡ none) s.interfaces
      (λ e m. link_fresh s e (get-mem s.interfaces u m)))

pub network_fresh :
    (cfg : Config) (s : NetworkSnapshot) (st : DaemonState) (now : ℕ)
    → UniqueKeys s.interfaces
    → (check_network cfg (some s) s st now).0 ≡ none
unfolding check_network
network_fresh cfg s st now u = ground (arith, detect_link_fresh s u)

pub lid_fresh :
    (cfg : Config) (current : LidState) (st : DaemonState) (now : ℕ)
    → (check_lid cfg (some current) current st now).0 ≡ none
unfolding check_lid
lid_fresh cfg current st now = ground arith

pub compare_pci_fresh : (cfg : Config) (s : PciSnapshot) → (compare_pci cfg s s).0 ≡ none
unfolding compare_pci
compare_pci_fresh cfg s = ground (arith, (pci_silence s s).1 (λ d. refl))

blank_twice :
    (allowed : List DeviceRef) (c : DisplayConnector)
    → blank_allowed allowed (blank_allowed allowed c) ≡ blank_allowed allowed c
unfolding blank_allowed holds_allowed
blank_twice allowed c = elim (Bool-cases (holds_allowed allowed c.edid)) [
  | inl e ↦ ground arith
  | inr e ↦ ground arith
]

blank-connector :
    (allowed : List DeviceRef) (c : DisplayConnector)
    → (blank_allowed allowed c).connector ≡ c.connector
unfolding blank_allowed
blank-connector allowed c = ground arith

map-blank_twice :
    (allowed : List DeviceRef) (cs : List DisplayConnector)
    → map (blank_allowed allowed) (map (blank_allowed allowed) cs) ≡ map (blank_allowed allowed) cs
map-blank_twice allowed [] = refl
map-blank_twice allowed (c ∷ cs) = ground (arith, blank_twice allowed c, map-blank_twice allowed cs)

-- A reading that is blanked again is the same.
hide_twice :
    (s : DisplaySnapshot) (allowed : List DeviceRef)
    → hide_allowed_displays (hide_allowed_displays s allowed) allowed
      ≡ hide_allowed_displays s allowed
unfolding hide_allowed_displays
hide_twice s [] = refl
hide_twice s (a ∷ rest) = ground (arith, map-blank_twice (a ∷ rest) s.connectors)

abbrev at_name : List DisplayConnector → Text → Option DisplayConnector
at_name cs name = find (λ (c : DisplayConnector). c.connector == name) cs

at_name-blank :
    (allowed : List DeviceRef) (cs : List DisplayConnector) (name : Text) (c : DisplayConnector)
    → at_name cs name ≡ some c
    → at_name (map (blank_allowed allowed) cs) name ≡ some (blank_allowed allowed c)
unfolding find_map
at_name-blank allowed [] name c h = ground arith
at_name-blank allowed (d ∷ cs) name c h = elim (Bool-cases (d.connector == name)) [
  | inl e ↦
      let same : d ≡ c = ground arith in
      ground (arith, blank-connector allowed d, ap (blank_allowed allowed) same)
  | inr e ↦
      let rest = at_name-blank allowed cs name c (ground arith) in
      ground (arith, blank-connector allowed d)
]

named-blank :
    (allowed : List DeviceRef) (whole cs : List DisplayConnector)
    → All (λ c. at_name whole c.connector ≡ some c) cs
    → All
        (λ c. at_name (map (blank_allowed allowed) whole) c.connector ≡ some c)
        (map (blank_allowed allowed) cs)
unfolding blank_allowed
named-blank allowed whole [] h = tt
named-blank allowed whole (c ∷ cs) h = (
  rw (blank-connector allowed c) (at_name-blank allowed whole c.connector c h.0),
  named-blank allowed whole cs h.1,
)

hide-IsNamed :
    (s : DisplaySnapshot) (allowed : List DeviceRef)
    → IsNamed s
    → IsNamed (hide_allowed_displays s allowed)
unfolding hide_allowed_displays get_connector
hide-IsNamed s [] n = n
hide-IsNamed s (a ∷ rest) n = named-blank (a ∷ rest) s.connectors s.connectors n

same_self : (o : Option DisplayConnector) → SameReading o o
same_self none = tt
same_self (some c) = (refl, λ h. (option_eq {A = EdidId}).eq_refl c.edid)

pub display_unchanged : (s : DisplaySnapshot) → IsNamed s → Display.detect_changes s s ≡ none
display_unchanged s n =
    (display_silence s s n).1
      ((option_eq {A = ℕ}).eq_refl s.opaque_generation, λ name. same_self (get_connector s name))

-- The display comparison of a reading with a baseline captured from it, blanked or not.
pub compare_display_fresh :
    (cfg : Config) (s : DisplaySnapshot) (allowed : List DeviceRef)
    → IsNamed s
    → (compare_display cfg (hide_allowed_displays s allowed) allowed s).0 ≡ none
unfolding compare_display
compare_display_fresh cfg s allowed n = ground (
  arith,
  hide_twice s allowed,
  display_unchanged (hide_allowed_displays s allowed) (hide-IsNamed s allowed n),
)
