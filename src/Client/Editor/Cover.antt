-- ===== src/Client/Editor/Cover.antt =====
-- crates/plugkill-gui/src/settings/editor/model.rs: entries that stand for several devices, and the
-- selectors that other panels hand over.
pub mod Raise
use plugkill.Prelude.{
  ℕ, zero, suc, ◌+◌, Bool, true, false, not, ◌&&◌, ◌||◌, Option, none, some, List, [], ◌∷◌, ◌++◌,
  map, max, ltb, if◌then◌else◌, ◌==◌, list_eq, nat_eq, Text, codes, Result, ok, err, ◌>>=◌,
}
use plugkill.Config.{Config, WhitelistEntry}
use plugkill.Allowances.{DeviceRef}
use plugkill.Allowances.Selector.{from_str}
use plugkill.Client.Editor.{
  ListKind, usb, thunderbolt, sd_card, pci, network, display, usb_entry, list_entries, is_listed,
  is_usb, list_add, normalise,
}

-- `iter_mut().find(..)` with a change to the count of what it finds.
unfoldable pub change_first : (ℕ → ℕ) → Text → List WhitelistEntry → List WhitelistEntry
change_first f entry [] = []
change_first f entry (e ∷ es) =
    let rest = change_first f entry es in
    if usb_entry e == entry then record e { count = f e.count } ∷ es else e ∷ rest

abbrev pub change_count : (ℕ → ℕ) → Text → Config → Config
change_count f entry config = record config {
  whitelist = record { devices = change_first f entry config.whitelist.devices };
}

unfoldable pub raise_listed : ListKind → Text → ℕ → Config → Config
unfolding change_first
raise_listed kind entry n config =
    if is_usb kind then change_count (λ c. max c n) entry config else config

unfoldable pub list_add_instances : Config → ListKind → Text → ℕ → Result (Text × Config)
unfolding normalise is_listed list_add raise_listed
list_add_instances config kind text n = do
  entry ← normalise kind text
  added ← (if is_listed config kind entry then ok (entry, config) else list_add config kind entry)
  ok (entry, raise_listed kind entry n added.1)

-- The raise of `list_cover_one`.
abbrev pub raise_below : ℕ → ℕ → ℕ
raise_below present c = if ltb c present then c + 1 else c

unfoldable pub cover_normal : Config → ListKind → Text → ℕ → Result (Text × Config)
unfolding is_listed list_add change_first
cover_normal config kind entry present =
    if not (is_listed config kind entry) || not (is_usb kind)
    then list_add config kind entry
    else ok (entry, change_count (raise_below present) entry config)

unfoldable pub list_cover_one : Config → ListKind → Text → ℕ → Result (Text × Config)
unfolding normalise cover_normal
list_cover_one config kind text present = do
  entry ← normalise kind text
  cover_normal config kind entry present

abbrev no_whitelist : Text
no_whitelist =
    codes
      "A monitor can only be allowed at runtime. The config ignores connectors by name, such as eDP-1."

unfoldable pub entry_of : DeviceRef → Result (ListKind × Text)
entry_of (DeviceRef.usb id) = ok (usb, id.vendor_id ++ b':' ∷ id.product_id)
entry_of (DeviceRef.thunderbolt id) = ok (thunderbolt, id.unique_id)
entry_of (DeviceRef.sd_card id) = ok (sd_card, id.serial)
entry_of (DeviceRef.pci sel) = ok (pci, sel)
entry_of (DeviceRef.display id) = err no_whitelist

unfoldable pub selector_entry : Text → Result (ListKind × Text)
unfolding from_str entry_of
selector_entry selector = do id ← from_str selector; entry_of id

unfoldable pub entry_selector : ListKind → Text → Option Text
entry_selector usb entry = some (codes "usb" ++ b':' ∷ entry)
entry_selector thunderbolt entry = some (codes "thunderbolt" ++ b':' ∷ entry)
entry_selector sd_card entry = some (codes "sdcard" ++ b':' ∷ entry)
entry_selector pci entry = some (codes "pci" ++ b':' ∷ entry)
entry_selector network entry = none
entry_selector display entry = none

-- `repeat_n`, in front of what follows
abbrev pub repeat_n : Text → ℕ → List Text → List Text
repeat_n s zero rest = rest
repeat_n s (suc n) rest = s ∷ repeat_n s n rest

unfoldable pub usb_selectors : List WhitelistEntry → List Text → List Text
usb_selectors [] rest = rest
usb_selectors (e ∷ es) rest = repeat_n (codes "usb:" ++ usb_entry e) e.count (usb_selectors es rest)

abbrev pub on_bus : Text → List (Text × Text) → List Text
on_bus bus = map (λ (row : Text × Text). bus ++ b':' ∷ row.0)

unfoldable pub selectors : Config → List Text
unfolding usb_selectors list_entries
selectors config = usb_selectors config.whitelist.devices (
    on_bus (codes "thunderbolt") (list_entries config thunderbolt)
    ++ (on_bus (codes "sdcard") (list_entries config sd_card)
        ++ on_bus (codes "pci") (list_entries config pci)))
