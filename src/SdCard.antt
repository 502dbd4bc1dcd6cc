-- ===== src/SdCard.antt =====
-- crates/plugkill-core/src/sdcard.rs: identities, snapshots as sets, the comparison with a baseline
-- and a whitelist, and the sysfs enumeration.
pub mod Detect
use plugkill.Prelude.{
  Bool, not, ◌&&◌, Option, none, some, List, if◌then◌else◌, or_else, Eq, eq_on, list_eq, nat_eq,
  find_map, contains, Text,
}

pub record SdCardDeviceId : Type 0 where
  pub serial : Text

instance abbrev pub sd_card_device_id_eq : Eq SdCardDeviceId
sd_card_device_id_eq = eq_on {A = Text} (λ id. id.serial)

pub record SdCardSnapshot : Type 0 where
  pub devices : List SdCardDeviceId

pub data SdCardChange : Type 0 where
  added : SdCardDeviceId → SdCardChange
  removed : SdCardDeviceId → SdCardChange

unfoldable pub device_id : SdCardChange → SdCardDeviceId
device_id (added id) = id
device_id (removed id) = id

-- The body of the first loop of `detect_changes`, over the devices that are there now.
unfoldable pub check_present :
    SdCardSnapshot → SdCardSnapshot → SdCardDeviceId → Option SdCardChange
check_present baseline whitelist device =
    if not (contains baseline.devices device) && not (contains whitelist.devices device)
    then some (added device)
    else none

-- The body of the second loop, over the devices of the baseline.
unfoldable pub check_baseline : SdCardSnapshot → SdCardDeviceId → Option SdCardChange
check_baseline self device =
    if not (contains self.devices device) then some (removed device) else none

unfoldable pub detect_changes :
    SdCardSnapshot → SdCardSnapshot → SdCardSnapshot → Option SdCardChange
unfolding find_map contains check_present check_baseline
detect_changes self baseline whitelist =
    or_else (find_map (check_present baseline whitelist) self.devices)
      (find_map (check_baseline self) baseline.devices)
