-- ===== src/Examples/Commands.antt =====
-- The theorems on the daemon's state, its commands and its power check, at concrete inputs.
use plugkill.Prelude.{
  ℕ, ◌≡◌, ◌≤◌, ◌+◌, inl, refl, true, false, Option, none, some, [], ◌∷◌, arith, Text, codes,
  from_secs, list_eq, nat_eq,
}
use plugkill.Allowances.{DeviceRef, usb, device_ref_eq, new_table}
use plugkill.Config.{
  Config, PowerPolicy, trigger_once, ac_required, default_config, default_general,
}
use plugkill.State.{DaemonState, PairingWindow, Violation, enforce, new_state, device_violation}
use plugkill.Ipc.{Request, kill, disarm, Response, PeerCreds, Authorization, refused, err_response}
use plugkill.Socket.{kill_authorized}
use plugkill.Socket.Dispatch.{handle_request}
use plugkill.Socket.Permission.{IsNoLooser, IsRefused, refused_loosens_nothing}
use plugkill.Socket.Timing.{IsTimed, handle_request-IsTimed}
use plugkill.Socket.Effects.{queued_kill, queued_only_by_root}
use plugkill.Power.{check_power, ac, battery}
use plugkill.Power.Waiting.{PowerPoll, poll, run, IsOut, power_waits_grace, trigger_once_fires_once}

abbrev start : DaemonState
start = new_state enforce (codes "/etc/plugkill/config.toml") 0

abbrev stick : DeviceRef
stick = usb (record { vendor_id = codes "0781"; product_id = codes "5567" })

abbrev plugged : Violation
plugged = device_violation (codes "USB VIOLATION") stick none true

abbrev window : PairingWindow
window = record { until = 100; ttl = some 50 }

abbrev paired_start : DaemonState
paired_start = record start { pairing = some window }

abbrev two_graces : DaemonState
two_graces = record start {
  power_grace = some (record { until = 90; reason = codes "AC power removed" });
  lid_grace = some (record { until = 80; reason = codes "lid closed" });
}

abbrev deny : Text → ℕ → ℕ → Authorization
deny action uid pid = refused (codes "denied")

abbrev no_reply : Request → DaemonState → Response
no_reply req st = err_response []

abbrev guest : Option PeerCreds
guest = some (record { uid = 1000; pid = some 42 })

abbrev root : Option PeerCreds
root = some (record { uid = 0; pid = some 1 })

guest-IsRefused : IsRefused deny guest
unfolding kill_authorized
guest-IsRefused = (refl, λ c pid action e f g. ground arith)

refused_loosens_nothing_example :
    IsNoLooser start (handle_request deny no_reply true true start 5 guest (disarm 60)).1
unfolding new_state new_table
refused_loosens_nothing_example =
    refused_loosens_nothing deny no_reply true start 5 guest (disarm 60) tt guest-IsRefused

handle_request-IsTimed_example :
    IsTimed 5 (handle_request deny no_reply false true start 5 guest (disarm 60)).1
unfolding new_state
handle_request-IsTimed_example =
    handle_request-IsTimed deny no_reply false true start 0 5 guest (disarm 60) (omega arith)
      (inl (refl, refl))

queued_only_by_root_example :
    (handle_request deny no_reply true true start 5 root (kill (codes "peer"))).1.kill_pending
    ≡ queued_kill start root (kill (codes "peer"))
queued_only_by_root_example =
    queued_only_by_root deny no_reply true true start 5 root (kill (codes "peer"))

abbrev watching : PowerPolicy → Config
watching policy = record default_config {
  general = record default_general { watch_power = true };
  power = record { policy = policy; grace_secs = 2; require_locked = false };
}

abbrev on_battery_at : ℕ → PowerPoll
on_battery_at secs = record { at = from_secs secs; supply = battery; locked = none }

power_waits_grace_example :
    (t : ℕ) × (IsOut t (on_battery_at 3 ∷ on_battery_at 1 ∷ [])
      × (t + from_secs 2 ≤ (on_battery_at 3).at))
unfolding new_state from_secs check_power
power_waits_grace_example =
    power_waits_grace (watching ac_required) ac refl (λ e. ground arith) start (on_battery_at 3)
      (on_battery_at 1 ∷ []) refl refl

abbrev waiting : DaemonState
waiting = run (watching trigger_once) (some ac) start (on_battery_at 1 ∷ [])

abbrev fired : DaemonState
fired = (poll (watching trigger_once) (some ac) waiting (on_battery_at 3)).1.1

trigger_once_fires_once_example :
    (poll
      (watching trigger_once)
      (some ac)
      (run (watching trigger_once) (some ac) fired (on_battery_at 4 ∷ []))
      (on_battery_at 9)).0
    ≡ none
unfolding new_state from_secs check_power default_config
trigger_once_fires_once_example =
    trigger_once_fires_once (watching trigger_once) (some ac) refl waiting (on_battery_at 3)
      (on_battery_at 4 ∷ []) (on_battery_at 9) refl
