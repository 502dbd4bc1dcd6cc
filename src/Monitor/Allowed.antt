-- ===== src/Monitor/Allowed.antt =====
-- crates/plugkill/src/main.rs: how an iteration consults the runtime allowances, in the whitelists
-- of the buses and in what a baseline keeps. A set of identities is a list.
pub mod Revoked
use plugkill.Prelude.{
  ℕ, ◌-◌, ◌==◌, Bool, true, false, not, Option, none, some, List, [], ◌∷◌, ◌++◌, map, filter,
  filter_map, contains, entry_add, ltb, if◌then◌else◌, list_eq, nat_eq, Text,
}
use plugkill.Config.{Config, WhitelistEntry, ThunderboltWhitelistEntry, SdCardWhitelistEntry}
use plugkill.Allowances.{
  DeviceRef, usb, thunderbolt, sd_card, pci, display, device_ref_eq, Allowance, active,
}
use plugkill.State.{DaemonState}
use plugkill.Usb.{UsbDeviceId, DeviceSnapshot, usb_device_id_eq}
use plugkill.Thunderbolt.{ThunderboltDeviceId, ThunderboltSnapshot}
use plugkill.SdCard.{SdCardDeviceId, SdCardSnapshot}

-- The identities of the allowances that have not expired.
unfoldable pub allowed_ids : DaemonState → ℕ → List DeviceRef
unfolding active
allowed_ids st now = map (λ (a : Allowance). a.id) (active st.allowances now)

-- The body of the second loop of `build_usb_whitelist`, and the loop.
unfoldable pub add_allowed : List DeviceRef → List (UsbDeviceId × ℕ) → List (UsbDeviceId × ℕ)
unfolding entry_add
add_allowed [] m = m
add_allowed (usb id ∷ allowed) m = add_allowed allowed (entry_add id 1 m)
add_allowed (_ ∷ allowed) m = add_allowed allowed m

-- The first loop.
unfoldable pub add_entries : List WhitelistEntry → List (UsbDeviceId × ℕ) → List (UsbDeviceId × ℕ)
unfolding entry_add
add_entries [] m = m
add_entries (e ∷ entries) m =
    add_entries entries
      (entry_add (record { vendor_id = e.vendor_id; product_id = e.product_id }) e.count m)

unfoldable pub build_usb_whitelist : Config → List DeviceRef → DeviceSnapshot
unfolding add_allowed add_entries
build_usb_whitelist cfg allowed = record {
  devices = add_allowed allowed (add_entries cfg.whitelist.devices []);
}

unfoldable pub thunderbolt_of : DeviceRef → Option ThunderboltDeviceId
thunderbolt_of (thunderbolt id) = some id
thunderbolt_of _ = none

unfoldable pub build_thunderbolt_whitelist : Config → List DeviceRef → ThunderboltSnapshot
unfolding filter_map thunderbolt_of
build_thunderbolt_whitelist cfg allowed = record {
  devices =
      map (λ (e : ThunderboltWhitelistEntry). record { unique_id = e.unique_id })
        cfg.thunderbolt_whitelist.devices
      ++ filter_map thunderbolt_of allowed;
}

unfoldable pub sd_card_of : DeviceRef → Option SdCardDeviceId
sd_card_of (sd_card id) = some id
sd_card_of _ = none

unfoldable pub build_sdcard_whitelist : Config → List DeviceRef → SdCardSnapshot
unfolding filter_map sd_card_of
build_sdcard_whitelist cfg allowed = record {
  devices =
      map (λ (e : SdCardWhitelistEntry). record { serial = e.serial }) cfg.sdcard_whitelist.devices
      ++ filter_map sd_card_of allowed;
}

unfoldable pub pci_of : DeviceRef → Option Text
pci_of (pci sel) = some sel
pci_of _ = none

unfoldable pub pci_ignore : Config → List DeviceRef → List Text
unfolding filter_map pci_of
pci_ignore cfg allowed = cfg.pci.ignore ++ filter_map pci_of allowed

-- `skip_allowed`, on each bus that was captured: an allowance covers one instance of a USB device.
unfoldable pub keep_entry : List DeviceRef → UsbDeviceId × ℕ → Option (UsbDeviceId × ℕ)
unfolding contains
keep_entry allowed (id, count) =
    let keep = if contains allowed (usb id) then count - 1 else count in
    if ltb 0 keep then some (id, keep) else none

unfoldable pub skip_usb : DeviceSnapshot → List DeviceRef → DeviceSnapshot
unfolding filter_map keep_entry
skip_usb s allowed = record { devices = filter_map (keep_entry allowed) s.devices }

unfoldable pub skip_thunderbolt : ThunderboltSnapshot → List DeviceRef → ThunderboltSnapshot
unfolding filter contains
skip_thunderbolt s allowed = record {
  devices = filter (λ id. not (contains allowed (thunderbolt id))) s.devices;
}

unfoldable pub skip_sdcard : SdCardSnapshot → List DeviceRef → SdCardSnapshot
unfolding filter contains
skip_sdcard s allowed = record {
  devices = filter (λ id. not (contains allowed (sd_card id))) s.devices;
}
