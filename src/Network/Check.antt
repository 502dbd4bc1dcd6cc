-- ===== src/Network/Check.antt =====
-- `check_network_violation_with` of crates/plugkill/src/main.rs and the text of a change of
-- crates/plugkill-core/src/network.rs: the grace period of a lost link. What the enumeration
-- returns and the clock are arguments.
pub mod Waiting
use plugkill.Prelude.{
  ℕ, ◌+◌, ◌-◌, Bool, true, false, not, Option, none, some, ◌++◌, ltb, is_some, if◌then◌else◌,
  from_secs, Text, codes,
}
use plugkill.Config.{Config, NetworkPolicy}
use plugkill.State.{DaemonState, Grace}
use plugkill.Network.{
  LinkState, up, down, unknown, NetworkSnapshot, NetworkChange, detect_link_down,
}

unfoldable pub link_state_text : LinkState → Text
link_state_text up = codes "up"
link_state_text down = codes "down"
link_state_text unknown = codes "unknown"

unfoldable pub change_text : NetworkChange → Text
unfolding link_state_text
change_text c =
    codes "interface "
    ++ (c.interface
        ++ (codes " link changed: "
            ++ (link_state_text c.from ++ (codes " → " ++ link_state_text c.to))))

abbrev pub network_message : NetworkChange → Text
network_message change = codes "NETWORK VIOLATION: " ++ change_text change

abbrev pub link_grace : NetworkChange → ℕ → Option Grace
link_grace change until =
    some (record { until = until; reason = codes "link down on " ++ change.interface })

-- The grace period, once a link is lost under the kill policy.
unfoldable pub wait : NetworkChange → ℕ → DaemonState → ℕ → Option Text × DaemonState
unfolding from_secs change_text
wait change grace_secs st now =
    if ltb 0 grace_secs
    then elim st.network_link_down_at [
      | none ↦ (
        none,
        record st {
          network_link_down_at = some now;
          network_grace = link_grace change (now + from_secs grace_secs);
        },
      )
      | some down_time ↦
          if ltb (now - down_time) (from_secs grace_secs)
          then (
            none,
            record st { network_grace = link_grace change (down_time + from_secs grace_secs) },
          )
          else (some (network_message change), record st { network_grace = none })
    ]
    else (
      some (network_message change),
      record st {
        network_link_down_at =
            if is_some st.network_link_down_at then st.network_link_down_at else some now;
        network_grace = none;
      },
    )

-- `check_network_violation_with`: the violation, and the baseline and the state afterwards.
unfoldable pub check_network :
    Config
    → Option NetworkSnapshot
    → NetworkSnapshot
    → DaemonState
    → ℕ
    → Option Text × (Option NetworkSnapshot × DaemonState)
unfolding wait detect_link_down
check_network cfg baseline current st now =
    if not cfg.general.watch_network then (none, (baseline, st)) else elim baseline [
      | none ↦ (none, (none, st))
      | some bl ↦ elim (detect_link_down current bl) [
        | none ↦ (none, (some bl, record st { network_link_down_at = none; network_grace = none }))
        | some change ↦ elim cfg.network.policy [
          | NetworkPolicy.monitor ↦ (none, (some current, record st { network_grace = none }))
          | NetworkPolicy.kill ↦
              let (fired, st') = wait change cfg.network.grace_secs st now in
              (fired, (some bl, st'))
        ]
      ]
    ]
