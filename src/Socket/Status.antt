-- ===== src/Socket/Status.antt =====
-- crates/plugkill/src/socket.rs: the `status` reply, field by field as crates/plugkill-gui/src/status.rs
-- reads it back. The clock, the readings of the buses and the sizes of the baselines are arguments.
use plugkill.Prelude.{
  ℕ, ◌-◌, Bool, true, false, not, ◌&&◌, Option, none, some, List, length, if◌then◌else◌, ◌==◌,
  list_eq, nat_eq, Text, codes, as_secs, as_millis, div_ceil,
}
use plugkill.Config
use plugkill.Config.{Config}
use plugkill.State.{DaemonMode, enforce, learn, DaemonState, soonest_grace}
use plugkill.Power.{PowerState, ac, battery}
use plugkill.Lid.{LidState, opened, closed}
use plugkill.Network.{NetworkSnapshot, links_down}
use plugkill.Monitor.Detection.{Baselines, map_option}

pub record Pending : Type 0 where
  pub bus : Text
  pub reason : Text
  pub secs_left : ℕ

pub record Status : Type 0 where
  pub armed : Bool
  pub mode : Text
  pub uptime_secs : ℕ
  pub disarm_remaining_secs : Option ℕ
  pub usb_devices : ℕ
  pub thunderbolt_devices : ℕ
  pub sdcard_devices : ℕ
  pub pci_devices : ℕ
  pub violations_logged : ℕ
  pub last_poll_ms_ago : Option ℕ
  pub dry_run : Bool
  pub pending_violation : Option Pending
  pub power_state : Option Text
  pub lid_state : Option Text
  pub network_links_down : Option ℕ
  pub config_path : Text

unfoldable pub mode_text : DaemonMode → Text
mode_text enforce = codes "enforce"
mode_text learn = codes "learn"

unfoldable pub power_state_key : PowerState → Text
power_state_key ac = codes "ac"
power_state_key battery = codes "battery"
power_state_key PowerState.unknown = codes "unknown"

unfoldable pub lid_state_key : LidState → Text
lid_state_key opened = codes "open"
lid_state_key closed = codes "closed"
lid_state_key LidState.unknown = codes "unknown"

abbrev power_acts : Config.PowerPolicy → Bool
power_acts Config.PowerPolicy.monitor = false
power_acts _ = true

abbrev network_acts : Config.NetworkPolicy → Bool
network_acts Config.NetworkPolicy.monitor = false
network_acts _ = true

abbrev lid_acts : Config.LidPolicy → Bool
lid_acts Config.LidPolicy.monitor = false
lid_acts _ = true

-- The closure `counts`.
unfoldable pub counts : Config → Text → Bool
counts cfg bus =
    if bus == codes "power"
    then cfg.general.watch_power && power_acts cfg.power.policy
    else if bus == codes "network"
    then cfg.general.watch_network && network_acts cfg.network.policy
    else if bus == codes "lid"
    then cfg.general.watch_lid && lid_acts cfg.lid.policy
    else false

-- `pending_violation_json`
unfoldable pub pending_violation : DaemonState → Config → ℕ → Option Pending
unfolding counts soonest_grace as_millis div_ceil
pending_violation st cfg now = if not st.armed then none else elim (soonest_grace st (counts cfg)) [
  | none ↦ none
  | some (bus, grace) ↦ some (record {
    bus = bus;
    reason = grace.reason;
    secs_left = div_ceil (as_millis (grace.until - now)) 1000;
  })
]

-- The readings that `handle_status` takes, the buses' only where they are watched.
pub record Live : Type 0 where
  pub power : PowerState
  pub lid : LidState
  pub network : List Text → NetworkSnapshot
  pub uptime_now : ℕ
  pub disarm_now : ℕ
  pub poll_now : ℕ
  pub now : ℕ

abbrev when : {A : Type 0} → Bool → A → Option A
when watched a = if watched then some a else none

abbrev size : {A B : Type 0} → (A → List B) → Option A → ℕ
size devices none = 0
size devices (some s) = length (devices s)

unfoldable pub handle_status : DaemonState → Config → Baselines → Live → Status
unfolding mode_text power_state_key lid_state_key pending_violation links_down as_secs as_millis
handle_status st cfg bl live = record {
  armed = st.armed;
  mode = mode_text st.mode;
  uptime_secs = as_secs (live.uptime_now - st.started_at);
  disarm_remaining_secs =
      map_option (λ deadline. as_secs (deadline - live.disarm_now)) st.disarm_until;
  usb_devices = size (λ s. s.devices) bl.usb;
  thunderbolt_devices = size (λ s. s.devices) bl.thunderbolt;
  sdcard_devices = size (λ s. s.devices) bl.sdcard;
  pci_devices = size (λ s. s.devices) bl.pci;
  violations_logged = st.violations_logged;
  last_poll_ms_ago = map_option (λ t. as_millis (live.poll_now - t)) st.last_poll;
  dry_run = cfg.general.dry_run;
  pending_violation = pending_violation st cfg live.now;
  power_state = when cfg.general.watch_power (power_state_key live.power);
  lid_state = when cfg.general.watch_lid (lid_state_key live.lid);
  network_links_down =
      when cfg.general.watch_network (links_down (live.network cfg.network.interfaces) bl.network);
  config_path = st.config_path;
}
