-- ===== src/Lid.antt =====
-- crates/plugkill-core/src/lid.rs, its states, and `check_lid_violation_with` of
-- crates/plugkill/src/main.rs: the lid and its grace period. What the lid read returns and the
-- clock are arguments.
pub mod Waiting
use plugkill.Prelude.{
  ℕ, ◌+◌, ◌-◌, Bool, true, false, not, ◌&&◌, Option, none, some, ltb, is_some, if◌then◌else◌,
  from_secs, Text, codes,
}
use plugkill.Config.{Config, LidPolicy}
use plugkill.State.{DaemonState, Grace}

pub data LidState : Type 0 where
  opened closed unknown : LidState

unfoldable pub is_closed : LidState → Bool
is_closed closed = true
is_closed _ = false

abbrev pub lid_message : Text
lid_message = codes "LID VIOLATION: laptop lid closed"

abbrev pub closed_grace : ℕ → Option Grace
closed_grace until = some (record { until = until; reason = codes "lid closed" })

-- The grace period, once the lid has closed under the kill policy.
unfoldable pub wait : ℕ → DaemonState → ℕ → Option Text × DaemonState
unfolding from_secs
wait grace_secs st now =
    if ltb 0 grace_secs
    then elim st.lid_close_at [
      | none ↦ (
        none,
        record st {
          lid_close_at = some now;
          lid_grace = closed_grace (now + from_secs grace_secs);
        },
      )
      | some close_time ↦
          if ltb (now - close_time) (from_secs grace_secs)
          then (none, record st { lid_grace = closed_grace (close_time + from_secs grace_secs) })
          else (some lid_message, record st { lid_grace = none })
    ]
    else (
      some lid_message,
      record st {
        lid_close_at = if is_some st.lid_close_at then st.lid_close_at else some now;
        lid_grace = none;
      },
    )

-- `check_lid_violation_with`: the violation, and the baseline and the state afterwards.
unfoldable pub check_lid :
    Config
    → Option LidState
    → LidState
    → DaemonState
    → ℕ
    → Option Text × (Option LidState × DaemonState)
unfolding wait is_closed
check_lid cfg baseline current st now =
    if not cfg.general.watch_lid then (none, (baseline, st)) else elim baseline [
      | none ↦ (none, (none, st))
      | some baseline_lid ↦
          if not (is_closed current)
          then (none, (some baseline_lid, record st { lid_close_at = none; lid_grace = none }))
          else if is_closed baseline_lid
          then (none, (some baseline_lid, st))
          else elim cfg.lid.policy [
            | LidPolicy.monitor ↦ (none, (some current, record st { lid_grace = none }))
            | LidPolicy.kill ↦
                let (fired, st') = wait cfg.lid.grace_secs st now in
                (fired, (some baseline_lid, st'))
          ]
    ]
