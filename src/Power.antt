-- ===== src/Power.antt =====
-- crates/plugkill-core/src/power.rs and `check_power_violation_with` of crates/plugkill/src/main.rs:
-- the power supply, its grace period and its trigger-once state. What the two hardware reads
-- return and the clock are arguments.
pub mod Waiting
use plugkill.Prelude.{
  ℕ, ◌+◌, ◌-◌, Bool, true, false, not, ◌&&◌, Option, none, some, ◌++◌, ltb, is_some, if◌then◌else◌,
  from_secs, Text, codes,
}
use plugkill.Config.{Config, PowerPolicy, trigger_once, ac_required, monitor}
use plugkill.State.{DaemonState, Grace}

pub data PowerState : Type 0 where
  ac battery unknown : PowerState

unfoldable pub is_battery : PowerState → Bool
is_battery battery = true
is_battery _ = false

unfoldable pub is_trigger_once : PowerPolicy → Bool
is_trigger_once trigger_once = true
is_trigger_once _ = false

unfoldable pub policy_name : PowerPolicy → Text
policy_name trigger_once = codes "trigger-once"
policy_name ac_required = codes "ac-required"
policy_name monitor = codes "monitor"

abbrev pub power_message : PowerPolicy → Text
power_message policy =
    codes "POWER VIOLATION: AC power removed (policy: " ++ (policy_name policy ++ codes ")")

-- The violation, once nothing holds it back.
unfoldable pub fire : PowerPolicy → DaemonState → Option Text × DaemonState
unfolding is_trigger_once policy_name
fire policy st = (
  some (power_message policy),
  record st {
    power_grace = none;
    power_trigger_once_fired = if is_trigger_once policy then true else st.power_trigger_once_fired;
  },
)

abbrev pub unplugged_grace : ℕ → Option Grace
unplugged_grace until = some (record { until = until; reason = codes "AC power removed" })

-- The grace period.
unfoldable pub wait : PowerPolicy → ℕ → DaemonState → ℕ → Option Text × DaemonState
unfolding fire from_secs
wait policy grace_secs st now =
    if ltb 0 grace_secs
    then elim st.power_unplug_at [
      | none ↦ (
        none,
        record st {
          power_unplug_at = some now;
          power_grace = unplugged_grace (now + from_secs grace_secs);
        },
      )
      | some unplug_time ↦
          if ltb (now - unplug_time) (from_secs grace_secs)
          then (
            none,
            record st { power_grace = unplugged_grace (unplug_time + from_secs grace_secs) },
          )
          else fire policy st
    ]
    else fire policy
        (if is_some st.power_unplug_at then st else record st { power_unplug_at = some now })

-- The lock requirement: `locked` is what `session_locked` reads.
unfoldable pub require_lock : Bool → Option Bool → Bool
require_lock required none = true
require_lock required (some locked) = if required then locked else true

-- The decision on battery.
unfoldable pub on_battery :
    Config → PowerState → Option Bool → DaemonState → ℕ → Option Text × DaemonState
unfolding wait require_lock is_battery is_trigger_once
on_battery cfg baseline locked st now =
    if is_trigger_once cfg.power.policy && st.power_trigger_once_fired
    then (none, st)
    else if is_battery baseline
    then (none, st)
    else if not (require_lock cfg.power.require_locked locked)
    then (
      none,
      record st {
        power_unplug_at = if is_some st.power_unplug_at then st.power_unplug_at else some now;
        power_grace = none;
      },
    )
    else wait cfg.power.policy cfg.power.grace_secs st now

-- The decision under a policy that acts.
unfoldable pub acting :
    Config → PowerState → PowerState → Option Bool → DaemonState → ℕ → Option Text × DaemonState
unfolding on_battery
acting cfg baseline current locked st now =
    if not (is_battery current)
    then (none, record st { power_unplug_at = none; power_grace = none })
    else on_battery cfg baseline locked st now

-- `check_power_violation_with`: the violation, and the baseline and the state afterwards. The
-- monitor policy moves the baseline to the reading.
unfoldable pub check_power :
    Config
    → Option PowerState
    → PowerState
    → Option Bool
    → DaemonState
    → ℕ
    → Option Text × (Option PowerState × DaemonState)
unfolding acting
check_power cfg baseline current locked st now =
    if not cfg.general.watch_power then (none, (baseline, st)) else elim baseline [
      | none ↦ (none, (none, st))
      | some base ↦ elim cfg.power.policy [
        | monitor ↦ (none, (some current, record st { power_grace = none }))
        | trigger_once ↦
            let (fired, st') = acting cfg base current locked st now in (fired, (some base, st'))
        | ac_required ↦
            let (fired, st') = acting cfg base current locked st now in (fired, (some base, st'))
      ]
    ]
