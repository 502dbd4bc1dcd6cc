-- ===== src/Monitor/Iteration.antt =====
-- crates/plugkill/src/main.rs: one iteration of the poll loop, from the first critical section to
-- the verdict. What the hardware, the configuration file and the clock answer is an argument; the
-- kill sequence itself is in Kill, and its call is the result's flag.
pub mod Chain
pub mod Armed
pub mod Disarmed
pub mod Killed
use plugkill.Prelude.{
  ℕ, Bool, true, false, Option, none, some, List, if◌then◌else◌, Text, codes, Result, ok, err,
}
use plugkill.Config.{Config}
use plugkill.Allowances.{DeviceRef}
use plugkill.State.{DaemonState, Violation, event_violation}
use plugkill.Power.{check_power}
use plugkill.Network.Check.{check_network}
use plugkill.Lid.{check_lid}
use plugkill.Monitor.{Drained, PollAction, drain, poll_action, skip, kill, check, settle}
use plugkill.Monitor.Allowed.{allowed_ids}
use plugkill.Monitor.Detection.{Baselines, detect_violations}
use plugkill.Monitor.Buses.{check_pci, check_display}
use plugkill.Monitor.Capture.{Hardware, capture_baselines}

-- The command line, as far as a reload preserves it.
pub record Cli : Type 0 where
  pub dry_run : Bool
  pub no_usb : Bool
  pub no_thunderbolt : Bool
  pub no_sdcard : Bool
  pub no_power : Bool
  pub no_network : Bool
  pub no_lid : Bool
  pub no_pci : Bool
  pub no_display : Bool

-- What is shared between the threads and survives an iteration.
pub record Daemon : Type 0 where
  pub config : Config
  pub baselines : Baselines
  pub state : DaemonState

-- What an iteration reads: the clock where it reads it, the hardware at a re-arm, at a reload and
-- at the checks, and the configuration file.
pub record Inputs : Type 0 where
  pub reading : ℕ
  pub now : ℕ
  pub power_now : ℕ
  pub network_now : ℕ
  pub lid_now : ℕ
  pub at : ℕ
  pub done : ℕ
  pub has_identity : Bool
  pub cli : Cli
  pub file : Result Config
  pub rearmed : Hardware
  pub reloaded : Hardware
  pub polled : Hardware

abbrev without : Bool → Bool → Bool
without off watched = if off then false else watched

-- The command line's overrides on a configuration that was read again.
unfoldable pub apply_overrides : Cli → Config → Config
apply_overrides cli cfg = record cfg {
  general = record cfg.general {
    dry_run = if cli.dry_run then true else cfg.general.dry_run;
    watch_usb = without cli.no_usb cfg.general.watch_usb;
    watch_thunderbolt = without cli.no_thunderbolt cfg.general.watch_thunderbolt;
    watch_sdcard = without cli.no_sdcard cfg.general.watch_sdcard;
    watch_power = without cli.no_power cfg.general.watch_power;
    watch_network = without cli.no_network cfg.general.watch_network;
    watch_lid = without cli.no_lid cfg.general.watch_lid;
    watch_pci = without cli.no_pci cfg.general.watch_pci;
    watch_display = without cli.no_display cfg.general.watch_display;
  };
}

-- The captures after a re-arm.
unfoldable pub rebaseline : Bool → Daemon → Inputs → Daemon
unfolding capture_baselines
rebaseline needed w i =
    let (bl, st) = capture_baselines w.config w.baselines w.state i.rearmed false i.now in
    if needed then record w { baselines = bl; state = st } else w

-- The reload: a file that does not parse leaves the configuration.
unfoldable pub reload : Daemon → Inputs → Daemon
unfolding apply_overrides capture_baselines
reload w i =
    let st = record w.state { reload_pending = false } in
    if w.state.reload_pending
    then elim i.file [
      | err e ↦ record w { state = st }
      | ok new ↦
          let cfg = apply_overrides i.cli new in
          let (bl, st') = capture_baselines cfg w.baselines st i.reloaded true i.now in
          record { config = cfg; baselines = bl; state = st' }
    ]
    else w

-- The checks in their order, each run where those before it found nothing.
unfoldable pub check_displays : Daemon → Inputs → Option Violation × Daemon
unfolding check_display allowed_ids
check_displays w i =
    let (found, left) =
      check_display w.config w.baselines.display (allowed_ids w.state i.now) i.polled.display in
    (found, record w { baselines = record w.baselines { display = left } })

unfoldable pub check_pci_on : Daemon → Inputs → Option Violation × Daemon
unfolding check_pci allowed_ids check_displays
check_pci_on w i =
    let (found, left) =
      check_pci w.config w.baselines.pci (allowed_ids w.state i.now) i.polled.pci in
    let w' = record w { baselines = record w.baselines { pci = left } } in
    elim found [ some v ↦ (some v, w') | none ↦ check_displays w' i ]

unfoldable pub check_lid_on : Daemon → Inputs → Option Violation × Daemon
unfolding check_lid check_pci_on event_violation
check_lid_on w i =
    let (found, (left, st)) = check_lid w.config w.baselines.lid i.polled.lid w.state i.lid_now in
    let w' = record w { baselines = record w.baselines { lid = left }; state = st } in
    elim found [ some d ↦ (some (event_violation (codes "lid") d), w') | none ↦ check_pci_on w' i ]

unfoldable pub check_network_on : Daemon → Inputs → Option Violation × Daemon
unfolding check_network check_lid_on event_violation
check_network_on w i =
    let (found, (left, st)) =
      check_network w.config w.baselines.network (i.polled.network w.config.network.interfaces)
        w.state i.network_now in
    let w' = record w { baselines = record w.baselines { network = left }; state = st } in
    elim found [
      | some d ↦ (some (event_violation (codes "network") d), w')
      | none ↦ check_lid_on w' i
    ]

unfoldable pub check_power_on : Daemon → Inputs → Option Violation × Daemon
unfolding check_power check_network_on event_violation
check_power_on w i =
    let (found, (left, st)) =
      check_power w.config w.baselines.power i.polled.power i.polled.locked w.state i.power_now in
    let w' = record w { baselines = record w.baselines { power = left }; state = st } in
    elim found [
      | some d ↦ (some (event_violation (codes "power") d), w')
      | none ↦ check_network_on w' i
    ]

unfoldable pub check_all : Daemon → Inputs → Option Violation × Daemon
unfolding detect_violations allowed_ids check_power_on
check_all w i =
    elim (detect_violations w.config w.baselines (allowed_ids w.state i.now) i.polled.readings) [
      | some v ↦ (some v, w)
      | none ↦ check_power_on w i
    ]

-- The verdict on what was found, and the mark of the poll.
unfoldable pub conclude : Option Violation → Daemon → Inputs → Bool × Daemon
unfolding settle
conclude found w i = elim found [
  | none ↦ (false, record w { state = record w.state { last_poll = some i.done } })
  | some v ↦
      let (killed, st) = settle w.state v i.now i.at i.has_identity in
      (killed, record w { state = record st { last_poll = some i.done } })
]

-- The `match` on what the iteration is to do.
unfoldable pub act : PollAction → Daemon → Inputs → Bool × Daemon
unfolding event_violation check_all conclude
act skip w i = (false, w)
act (kill description) w i = conclude (some (event_violation (codes "relay") description)) w i
act check w i = let (found, after) = check_all w i in conclude found after i

-- An iteration, and whether it runs the kill sequence.
unfoldable pub iterate : Daemon → Inputs → Bool × Daemon
iterate w i =
    let (d, st) = drain w.state i.reading i.now in
    let w' = reload (rebaseline d.needs_rebaseline (record w { state = st }) i) i in
    act (poll_action d.remote_kill d.is_armed) w' i
