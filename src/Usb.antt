-- ===== src/Usb.antt =====
-- crates/plugkill-core/src/usb.rs: USB identities, counted snapshots, the comparison with a
-- baseline and a whitelist, and the sysfs enumeration that builds a snapshot.
pub mod Detect
use plugkill.Prelude.{
  ℕ, zero, ◌+◌, ◌-◌, ◌^◌, min, ◌≡◌, Bool, not, ◌&&◌, ◌||◌, Option, none, some, List, [], ◌∷◌, ◌++◌,
  ltb, leb, eqb, if◌then◌else◌, or_else, Eq, eq_on, list_eq, nat_eq, pair_eq, length, every,
  find_map, count, entry_add, Text, is_empty, is_ascii_hexdigit,
}

pub record UsbDeviceId : Type 0 where
  pub vendor_id : Text
  pub product_id : Text

instance abbrev pub usb_device_id_eq : Eq UsbDeviceId
usb_device_id_eq = eq_on {A = Text × Text} (λ id. (id.vendor_id, id.product_id))

pub record DeviceSnapshot : Type 0 where
  pub devices : List (UsbDeviceId × ℕ)

pub data DeviceChange : Type 0 where
  added : UsbDeviceId → DeviceChange
  removed : UsbDeviceId → DeviceChange
  count_increased : UsbDeviceId → ℕ → ℕ → DeviceChange
  count_decreased : UsbDeviceId → ℕ → ℕ → DeviceChange

unfoldable pub device_id : DeviceChange → UsbDeviceId
device_id (added id) = id
device_id (removed id) = id
device_id (count_increased device expected actual) = device
device_id (count_decreased device expected actual) = device

unfoldable pub count_of : DeviceSnapshot → UsbDeviceId → ℕ
unfolding count
count_of s id = count s.devices id

-- u32's `saturating_add`
unfoldable pub saturating_add : ℕ → ℕ → ℕ
saturating_add a b = min (2 ^ 32 - 1) (a + b)

-- The body of the first loop of `detect_changes`, over the devices that are there now.
unfoldable pub check_present :
    DeviceSnapshot → DeviceSnapshot → UsbDeviceId × ℕ → Option DeviceChange
unfolding count_of saturating_add
check_present baseline whitelist (device, current_count) =
    let baseline_count = count_of baseline device in
    let whitelist_count = count_of whitelist device in
    let allowed_count = saturating_add baseline_count whitelist_count in
    if eqb baseline_count 0 && eqb whitelist_count 0
    then some (added device)
    else if ltb allowed_count current_count
    then some (count_increased device allowed_count current_count)
    else none

-- The body of the second loop, over the devices of the baseline.
unfoldable pub check_baseline : DeviceSnapshot → UsbDeviceId × ℕ → Option DeviceChange
unfolding count_of
check_baseline current (device, baseline_count) =
    let current_count = count_of current device in
    if eqb current_count 0
    then some (removed device)
    else if ltb current_count baseline_count
    then some (count_decreased device baseline_count current_count)
    else none

unfoldable pub detect_changes :
    DeviceSnapshot → DeviceSnapshot → DeviceSnapshot → Option DeviceChange
unfolding find_map check_present check_baseline
detect_changes self baseline whitelist =
    or_else (find_map (check_present baseline whitelist) self.devices)
      (find_map (check_baseline self) baseline.devices)

unfoldable pub is_valid_hex_id : Text → Bool
unfolding every is_ascii_hexdigit
is_valid_hex_id s = not (is_empty s) && leb (length s) 4 && every is_ascii_hexdigit s
