-- ===== src/Client/Editor.antt =====
-- crates/plugkill-gui/src/settings/editor/model.rs: the tables of the configuration editor, the
-- selectors that go in and out of them, and the two comparisons of its output pane. A call that
-- changes the configuration returns the new one.
pub mod Lists
pub mod Cover
use plugkill.Prelude.{
  ℕ, zero, suc, ◌+◌, Bool, true, false, not, ◌&&◌, ◌||◌, Option, none, some, List, [], ◌∷◌, ◌++◌,
  map, drop, any, filter, length, max, ltb, leb, eqb, if◌then◌else◌, ◌==◌, list_eq, nat_eq, Text,
  codes, is_empty, split_once, to_dec, count, entry_add, Result, ok, err, ◌>>=◌, split,
}
use plugkill.Config.{Config, WhitelistEntry, ThunderboltWhitelistEntry, SdCardWhitelistEntry}
use plugkill.Allowances.{DeviceRef}
use plugkill.Allowances.Selector.{from_str}

pub data ListKind : Type 0 where
  usb thunderbolt sd_card pci network display : ListKind

-- The bytes of the white space character that a text begins with, 0 where it begins with none.
unfoldable pub white_len : Text → ℕ
white_len [] = 0
white_len (a ∷ []) = if (leb 9 a && leb a 13) || eqb a 32 then 1 else 0
white_len (a ∷ b ∷ []) =
    if (leb 9 a && leb a 13) || eqb a 32
    then 1
    else if eqb a 0xC2 && (eqb b 0x85 || eqb b 0xA0)
    then 2
    else 0
white_len (a ∷ b ∷ c ∷ s) =
    if (leb 9 a && leb a 13) || eqb a 32
    then 1
    else if eqb a 0xC2 && (eqb b 0x85 || eqb b 0xA0)
    then 2
    else if (eqb a 0xE1 && eqb b 0x9A && eqb c 0x80)
        || (eqb a 0xE2
            && ((eqb b 0x80
                  && ((leb 0x80 c && leb c 0x8A) || eqb c 0xA8 || eqb c 0xA9 || eqb c 0xAF))
                || (eqb b 0x81 && eqb c 0x9F)))
        || (eqb a 0xE3 && eqb b 0x80 && eqb c 0x80)
    then 3
    else 0

-- `str::trim_start`, where the length is fuel enough: each step drops a byte at least.
unfoldable pub trim_from : ℕ → Text → Text
unfolding white_len
trim_from zero s = s
trim_from (suc f) s =
    let rest = trim_from f (drop (white_len s) s) in if eqb (white_len s) 0 then s else rest

unfoldable pub trim_end : Text → Text
unfolding trim_from
trim_end [] = []
trim_end (c ∷ s) =
    let rest = trim_end s in if is_empty (trim_from (length (c ∷ s)) (c ∷ s)) then [] else c ∷ rest

-- `str::trim`
unfoldable pub trim : Text → Text
unfolding trim_from trim_end
trim s = trim_end (trim_from (length s) s)

-- `format!("{}:{}", e.vendor_id, e.product_id)`
abbrev pub usb_entry : WhitelistEntry → Text
usb_entry e = e.vendor_id ++ b':' ∷ e.product_id

unfoldable pub usb_row : WhitelistEntry → Text × Text
unfolding to_dec
usb_row e = (
  usb_entry e,
  if ltb 1 e.count then usb_entry e ++ (codes "  x" ++ to_dec e.count) else usb_entry e,
)

abbrev pub plain : List Text → List (Text × Text)
plain = map (λ s. (s, s))

unfoldable pub list_entries : Config → ListKind → List (Text × Text)
unfolding usb_row
list_entries config usb = map usb_row config.whitelist.devices
list_entries config thunderbolt =
    map (λ (e : ThunderboltWhitelistEntry). (e.unique_id, e.unique_id))
      config.thunderbolt_whitelist.devices
list_entries config sd_card =
    map (λ (e : SdCardWhitelistEntry). (e.serial, e.serial)) config.sdcard_whitelist.devices
list_entries config pci = plain config.pci.ignore
list_entries config network = plain config.network.interfaces
list_entries config display = plain config.display.ignore

-- `iter().any(|(e, _)| *e == entry)`
unfoldable pub is_listed : Config → ListKind → Text → Bool
unfolding any list_entries
is_listed config kind entry = any (λ (row : Text × Text). row.0 == entry) (list_entries config kind)

abbrev pub is_usb : ListKind → Bool
is_usb usb = true
is_usb _ = false

abbrev not_a_pair : Text → Text
not_a_pair text = codes "'" ++ (text ++ codes "' is not a vendor:product pair like 1d6b:0002.")

-- What the parse of `usb:{text}` comes to.
unfoldable pub stored_pair : Text → Result DeviceRef → Result Text
stored_pair text (ok (DeviceRef.usb id)) = ok (id.vendor_id ++ b':' ∷ id.product_id)
stored_pair text _ = err (not_a_pair text)

unfoldable pub normalise_trimmed : ListKind → Text → Result Text
unfolding stored_pair from_str
normalise_trimmed kind text =
    if is_empty text
    then err (codes "Type an entry first.")
    else if not (is_usb kind)
    then ok text
    else stored_pair text (from_str (codes "usb:" ++ text))

unfoldable pub normalise : ListKind → Text → Result Text
unfolding normalise_trimmed trim
normalise kind text = normalise_trimmed kind (trim text)

-- `entry.split_once(':').unwrap_or_default()`
abbrev pub fields : Text → Text × Text
fields entry = elim (split_once b':' entry) [ none ↦ ([], []) | some p ↦ p ]

-- The `match` of `list_add`.
unfoldable pub push_entry : Config → ListKind → Text → Config
unfolding split_once
push_entry config usb entry = record config {
  whitelist = record {
    devices =
        config.whitelist.devices
        ++ record { vendor_id = (fields entry).0; product_id = (fields entry).1; count = 1 } ∷ [];
  };
}
push_entry config thunderbolt entry = record config {
  thunderbolt_whitelist = record {
    devices = config.thunderbolt_whitelist.devices ++ record { unique_id = entry } ∷ [];
  };
}
push_entry config sd_card entry = record config {
  sdcard_whitelist = record {
    devices = config.sdcard_whitelist.devices ++ record { serial = entry } ∷ [];
  };
}
push_entry config pci entry = record config {
  pci = record config.pci { ignore = config.pci.ignore ++ entry ∷ [] };
}
push_entry config network entry = record config {
  network = record config.network { interfaces = config.network.interfaces ++ entry ∷ [] };
}
push_entry config display entry = record config {
  display = record config.display { ignore = config.display.ignore ++ entry ∷ [] };
}

unfoldable pub add_normal : Config → ListKind → Text → Result (Text × Config)
unfolding is_listed push_entry
add_normal config kind entry =
    if is_listed config kind entry
    then err (entry ++ codes " is already listed.")
    else ok (entry, push_entry config kind entry)

unfoldable pub list_add : Config → ListKind → Text → Result (Text × Config)
unfolding normalise add_normal
list_add config kind text = do entry ← normalise kind text; add_normal config kind entry

-- `retain`
unfoldable pub list_remove : Config → ListKind → Text → Config
unfolding filter
list_remove config usb entry = record config {
  whitelist = record {
    devices = filter (λ (e : WhitelistEntry). not (usb_entry e == entry)) config.whitelist.devices;
  };
}
list_remove config thunderbolt entry = record config {
  thunderbolt_whitelist = record {
    devices =
        filter (λ (e : ThunderboltWhitelistEntry). not (e.unique_id == entry))
          config.thunderbolt_whitelist.devices;
  };
}
list_remove config sd_card entry = record config {
  sdcard_whitelist = record {
    devices =
        filter (λ (e : SdCardWhitelistEntry). not (e.serial == entry))
          config.sdcard_whitelist.devices;
  };
}
list_remove config pci entry = record config {
  pci = record config.pci { ignore = filter (λ e. not (e == entry)) config.pci.ignore };
}
list_remove config network entry = record config {
  network = record config.network {
    interfaces = filter (λ e. not (e == entry)) config.network.interfaces;
  };
}
list_remove config display entry = record config {
  display = record config.display { ignore = filter (λ e. not (e == entry)) config.display.ignore };
}
