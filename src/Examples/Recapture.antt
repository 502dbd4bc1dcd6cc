-- ===== src/Examples/Recapture.antt =====
-- The theorems on captures and on whole iterations, at concrete inputs.
use plugkill.Prelude.{
  ◌≡◌, ◌≢◌, refl, arith, Bool, true, false, Option, none, some, [], ◌∷◌, ok, err, codes, Text,
  contains, list_eq, list_beq, nat_eq, pair_beq, option_beq, get, count, find_map, filter, any,
}
use plugkill.Edid.{EdidId}
use plugkill.Config
use plugkill.Config.{Config, default_config, default_general}
use plugkill.Allowances.{pci, display, device_ref_beq, device_ref_eq, new_table, active}
use plugkill.State.{DaemonState, Violation, enforce, learn, new_state}
use plugkill.Ipc.{ok_response}
use plugkill.Socket.{handle_kill}
use plugkill.Usb.{UsbDeviceId, usb_device_id_eq, count_of}
use plugkill.Usb.Detect.{IsSnapshot}
use plugkill.Pci.{enumerate, is_ignored}
use plugkill.Display.{DisplayConnector, DisplaySnapshot, get_connector}
use plugkill.Power.{battery}
use plugkill.Network.{up, down}
use plugkill.Lid
use plugkill.Monitor.{drain, rearm}
use plugkill.Monitor.Allowed.{allowed_ids, add_entries}
use plugkill.Monitor.Detection.{Baselines}
use plugkill.Monitor.Buses.{check_pci, check_display}
use plugkill.Monitor.Buses.Unseen.{plug, allowed_display_unseen}
use plugkill.Monitor.Buses.Removed.{allowed_pci_reads_removed}
use plugkill.Monitor.Capture.{Hardware, capture_baselines}
use plugkill.Monitor.Capture.Silence.{HasRoom}
use plugkill.Monitor.Capture.Standing.{IsRetained, reload_keeps_standing}
use plugkill.Monitor.Iteration.{Cli, Daemon, Inputs, rebaseline, check_all, iterate}
use plugkill.Monitor.Iteration.Armed.{IsSteady, drained, rearm_kills_nothing}
use plugkill.Monitor.Iteration.Killed.{IsTaken, accepted_kill_runs}
use plugkill.Monitor.Iteration.Disarmed.{SameRecord, disarmed_never_kills}

abbrev mouse : UsbDeviceId
mouse = record { vendor_id = codes "046d"; product_id = codes "c52b" }

abbrev watched : Config
watched = record default_config {
  general = record default_general {
    watch_power = true;
    watch_network = true;
    watch_lid = true;
    watch_pci = true;
    watch_display = true;
  };
  pci = record { policy = Config.PciPolicy.kill; ignore = [] };
}

abbrev monitor : EdidId
monitor = record {
  mfg = codes "SAM";
  product = 30509;
  serial = some 811021873;
  name = codes "Odyssey G93SD";
}

abbrev connector : Text → Bool → Option EdidId → DisplayConnector
connector name connected edid = record { connector = name; connected = connected; edid = edid }

abbrev displays : DisplaySnapshot
displays = record {
  connectors =
      connector (codes "DP-1") true (some monitor) ∷ connector (codes "HDMI-A-1") false none ∷ [];
  opaque_generation = none;
}

abbrev gpu : Text
gpu = codes "0000:01:00.0"

abbrev machine : Hardware
machine = record {
  readings = record {
    usb = ok (record { devices = (mouse, 1) ∷ [] });
    thunderbolt = err (codes "no such directory");
    sdcard = ok (record { devices = record { serial = codes "0x1a2b" } ∷ [] });
  };
  names = record { usb = []; thunderbolt = []; sdcard = [] };
  power = battery;
  locked = none;
  network = λ only. record { interfaces = (codes "eth0", up) ∷ (codes "eth1", down) ∷ [] };
  lid = Lid.closed;
  pci = ok (gpu ∷ []);
  display = λ ignore. displays;
}

abbrev empty : Baselines
empty = record {
  usb = none;
  thunderbolt = none;
  sdcard = none;
  power = none;
  network = none;
  lid = none;
  pci = none;
  display = none;
  names = record { usb = []; thunderbolt = []; sdcard = [] };
}

abbrev no_flags : Cli
no_flags = record {
  dry_run = false;
  no_usb = false;
  no_thunderbolt = false;
  no_sdcard = false;
  no_power = false;
  no_network = false;
  no_lid = false;
  no_pci = false;
  no_display = false;
}

abbrev moment : Inputs
moment = record {
  reading = 70;
  now = 70;
  power_now = 71;
  network_now = 72;
  lid_now = 73;
  at = 1_700_000_000;
  done = 74;
  has_identity = true;
  cli = no_flags;
  file = err (codes "no such file");
  rearmed = machine;
  reloaded = machine;
  polled = machine;
}

abbrev armed_again : DaemonState
armed_again = record (new_state enforce (codes "/etc/plugkill/config.toml") 0) {
  rebaseline_pending = true;
}

abbrev daemon : Daemon
daemon = record { config = watched; baselines = empty; state = armed_again }

mouse-IsSnapshot : IsSnapshot (record { devices = (mouse, 1) ∷ [] })
unfolding get
mouse-IsSnapshot = record { unique = (refl, tt); counted = (omega arith, tt) }

mouse-HasRoom : HasRoom watched [] (record { devices = (mouse, 1) ∷ [] })
unfolding default_config default_general add_entries get count count_of
mouse-HasRoom = record { listed = λ id. omega arith; counts = λ id. ground arith }

machine-IsSteady : IsSteady watched (allowed_ids (drained daemon moment).state 70) machine
unfolding default_config default_general add_entries get count list_beq get_connector find_map
    count_of allowed_ids active filter new_state new_table drain rearm
machine-IsSteady = record {
  usb = λ s e.
      let same : s ≡ record { devices = (mouse, 1) ∷ [] } = ground arith in
      rw same (mouse-IsSnapshot, mouse-HasRoom);
  interfaces = (refl, (refl, tt));
  connectors = (refl, (refl, tt));
}

rearm_kills_nothing_example :
    ((check_all (rebaseline true (drained daemon moment) moment) moment).0 ≡ none)
    × ((iterate daemon moment).0 ≡ false)
unfolding new_state drain rearm
rearm_kills_nothing_example = rearm_kills_nothing daemon moment refl refl refl refl machine-IsSteady

abbrev off : Daemon
off = record {
  config = watched;
  baselines = empty;
  state = record armed_again { armed = false; disarm_until = some 90 };
}

disarmed_never_kills_example :
    ((iterate off moment).0 ≡ false) × SameRecord off.state (iterate off moment).1.state
unfolding new_state drain rearm
disarmed_never_kills_example = disarmed_never_kills off moment refl refl

abbrev standing : Baselines
standing = record empty {
  usb = some (record { devices = (mouse, 2) ∷ [] });
  power = some battery;
  pci = some (record { devices = [] });
}

reload_keeps_standing_example :
    let (after, st') = capture_baselines watched standing armed_again machine true 70 in
    IsRetained watched.general.watch_usb standing.usb after.usb
    × IsRetained watched.general.watch_power standing.power after.power
    × IsRetained watched.general.watch_network standing.network after.network
    × IsRetained watched.general.watch_lid standing.lid after.lid
    × IsRetained watched.general.watch_pci standing.pci after.pci
    × (standing.power ≢ none → st'.power_unplug_at ≡ armed_again.power_unplug_at)
    × (standing.network ≢ none → st'.network_link_down_at ≡ armed_again.network_link_down_at)
    × (standing.lid ≢ none → st'.lid_close_at ≡ armed_again.lid_close_at)
reload_keeps_standing_example = reload_keeps_standing watched standing armed_again machine 70

allowed_display_unseen_example :
    check_display watched
      (some displays)
      (display monitor ∷ [])
      (λ ignore. plug (codes "HDMI-A-1") monitor displays)
    ≡ check_display watched (some displays) (display monitor ∷ []) (λ ignore. displays)
unfolding contains device_ref_beq list_beq pair_beq option_beq
allowed_display_unseen_example =
    allowed_display_unseen watched (some displays) (display monitor ∷ []) (λ ignore. displays)
      (codes "HDMI-A-1") monitor refl ((λ e. ground arith), ((λ e. refl), tt))

allowed_pci_reads_removed_example :
    (v : Violation) × (check_pci watched
        (some (enumerate (gpu ∷ []) watched.pci.ignore))
        (pci gpu ∷ [])
        (ok (gpu ∷ []))
      ≡ (some v, some (enumerate (gpu ∷ []) watched.pci.ignore)))
    × (v.id ≡ none)
    × (v.appeared ≡ false)
unfolding default_config default_general enumerate filter is_ignored any contains list_beq
allowed_pci_reads_removed_example =
    allowed_pci_reads_removed watched (gpu ∷ []) gpu [] refl refl refl refl

abbrev kill_received : DaemonState
kill_received = (handle_kill off.state (codes "stolen") (some 0)).1

accepted_kill_runs_example :
    let (killed, after) =
      iterate (record off { state = record kill_received { mode = learn } }) moment in
    (killed ≡ false) × IsTaken (codes "stolen") after.state
unfolding new_state handle_kill ok_response
accepted_kill_runs_example =
    accepted_kill_runs off moment (codes "stolen") (some 0) learn
      (record { bounded = omega arith; alternates = tt }) refl
