-- ===== src/Config.antt =====
-- crates/plugkill-core/src/config.rs: the configuration and its defaults. A field's value is what
-- the TOML parser left there.
pub mod Validate
use plugkill.Prelude.{ℕ, Bool, true, false, Option, none, List, [], Text, codes}

pub record GeneralConfig : Type 0 where
  pub sleep_ms : ℕ
  pub log_file : Text
  pub dry_run : Bool
  pub watch_usb : Bool
  pub watch_thunderbolt : Bool
  pub watch_sdcard : Bool
  pub watch_power : Bool
  pub watch_network : Bool
  pub watch_lid : Bool
  pub watch_pci : Bool
  pub watch_display : Bool
  pub require_auth : Bool

unfoldable pub default_general : GeneralConfig
default_general = record {
  sleep_ms = 250;
  log_file = codes "/var/log/plugkill/plugkill.log";
  dry_run = false;
  watch_usb = true;
  watch_thunderbolt = true;
  watch_sdcard = true;
  watch_power = false;
  watch_network = false;
  watch_lid = false;
  watch_pci = false;
  watch_display = false;
  require_auth = false;
}

pub record WhitelistEntry : Type 0 where
  pub vendor_id : Text
  pub product_id : Text
  pub count : ℕ

pub record WhitelistConfig : Type 0 where
  pub devices : List WhitelistEntry

pub record DestructionConfig : Type 0 where
  pub files_to_remove : List Text
  pub folders_to_remove : List Text
  pub melt_self : Bool
  pub do_sync : Bool
  pub do_wipe_swap : Bool
  pub swap_device : Option Text

unfoldable pub default_destruction : DestructionConfig
default_destruction = record {
  files_to_remove = [];
  folders_to_remove = [];
  melt_self = false;
  do_sync = true;
  do_wipe_swap = false;
  swap_device = none;
}

pub record CommandsConfig : Type 0 where
  pub kill_commands : List (List Text)

pub record ThunderboltWhitelistEntry : Type 0 where
  pub unique_id : Text

pub record ThunderboltWhitelistConfig : Type 0 where
  pub devices : List ThunderboltWhitelistEntry

pub record SdCardWhitelistEntry : Type 0 where
  pub serial : Text

pub record SdCardWhitelistConfig : Type 0 where
  pub devices : List SdCardWhitelistEntry

pub data PowerPolicy : Type 0 where
  trigger_once ac_required monitor : PowerPolicy

pub record PowerConfig : Type 0 where
  pub policy : PowerPolicy
  pub grace_secs : ℕ
  pub require_locked : Bool

pub data NetworkPolicy : Type 0 where
  kill monitor : NetworkPolicy

pub record NetworkConfig : Type 0 where
  pub policy : NetworkPolicy
  pub grace_secs : ℕ
  pub interfaces : List Text

pub data LidPolicy : Type 0 where
  kill monitor : LidPolicy

pub record LidConfig : Type 0 where
  pub policy : LidPolicy
  pub grace_secs : ℕ

pub data PciPolicy : Type 0 where
  kill monitor : PciPolicy

pub record PciConfig : Type 0 where
  pub policy : PciPolicy
  pub ignore : List Text

pub data DisplayPolicy : Type 0 where
  kill monitor : DisplayPolicy

pub record DisplayConfig : Type 0 where
  pub policy : DisplayPolicy
  pub ignore : List Text

pub record Config : Type 0 where
  pub general : GeneralConfig
  pub whitelist : WhitelistConfig
  pub destruction : DestructionConfig
  pub commands : CommandsConfig
  pub thunderbolt_whitelist : ThunderboltWhitelistConfig
  pub sdcard_whitelist : SdCardWhitelistConfig
  pub power : PowerConfig
  pub network : NetworkConfig
  pub lid : LidConfig
  pub pci : PciConfig
  pub display : DisplayConfig

-- A configuration with no section written, as `Config::default` gives it.
unfoldable pub default_config : Config
unfolding default_general default_destruction
default_config = record {
  general = default_general;
  whitelist = record { devices = [] };
  destruction = default_destruction;
  commands = record { kill_commands = [] };
  thunderbolt_whitelist = record { devices = [] };
  sdcard_whitelist = record { devices = [] };
  power = record { policy = PowerPolicy.monitor; grace_secs = 0; require_locked = false };
  network = record { policy = NetworkPolicy.monitor; grace_secs = 0; interfaces = [] };
  lid = record { policy = LidPolicy.monitor; grace_secs = 0 };
  pci = record { policy = PciPolicy.monitor; ignore = [] };
  display = record { policy = DisplayPolicy.monitor; ignore = [] };
}
