-- ===== src/Monitor/Iteration/Disarmed.antt =====
-- The iterations of a disarmed daemon, and the overrides of the command line.
use plugkill.Prelude.{◌≡◌, arith, Bool, false, none}
use plugkill.State.{DaemonState}
use plugkill.Monitor.{drain, rearm, poll_action}
use plugkill.Monitor.Capture.{
  capture_baselines, reset_captured, reset_power, reset_network, reset_lid,
}
use plugkill.Monitor.Iteration.{Daemon, Inputs, rebaseline, reload, act, iterate}

-- The part of the state that a disarmed daemon's iteration does not touch.
abbrev pub SameRecord : DaemonState → DaemonState → Type 0
SameRecord st st' =
    (st'.violations ≡ st.violations)
    × (st'.violations_logged ≡ st.violations_logged)
    × (st'.last_poll ≡ st.last_poll)
    × (st'.mode ≡ st.mode)

rebaseline-SameRecord :
    (needed : Bool) (w : Daemon) (i : Inputs) → SameRecord w.state (rebaseline needed w i).state
unfolding rebaseline capture_baselines reset_captured reset_power reset_network reset_lid
rebaseline-SameRecord needed w i = (ground arith, ground arith, ground arith, ground arith)

reload-SameRecord : (w : Daemon) (i : Inputs) → SameRecord w.state (reload w i).state
unfolding reload capture_baselines reset_captured reset_power reset_network reset_lid
reload-SameRecord w i = (ground arith, ground arith, ground arith, ground arith)

-- While the daemon stays disarmed and no kill is queued, an iteration does not run the kill
-- sequence and records no violation, whatever the hardware answers and the configuration file says.
pub disarmed_never_kills :
    (w : Daemon) (i : Inputs)
    → (drain w.state i.reading i.now).0.is_armed ≡ false
    → w.state.kill_pending ≡ none
    → ((iterate w i).0 ≡ false) × SameRecord w.state (iterate w i).1.state
unfolding iterate act poll_action drain rearm
disarmed_never_kills w i off none_queued =
    let st = (drain w.state i.reading i.now).1 in
    let first : Daemon = record w { state = st } in
    let needed = (drain w.state i.reading i.now).0.needs_rebaseline in
    let a = rebaseline-SameRecord needed first i in
    let b = reload-SameRecord (rebaseline needed first i) i in
    (ground arith, (ground arith, ground arith, ground arith, ground arith))
