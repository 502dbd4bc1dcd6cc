-- ===== src/Examples/Polls.antt =====
-- The theorems on an iteration of the poll loop, at concrete inputs.
use plugkill.Network.{NetworkSnapshot, up, down}
use plugkill.Prelude.{
  [], ◌∷◌, list_eq, nat_eq, ◌≡◌, ◌<◌, ◌+◌, ◌⊎◌, inr, refl, true, false, none, some, arith, is_some,
  from_secs, codes,
}
use plugkill.Allowances.{DeviceRef, usb, new_table}
use plugkill.Allowances.Table.{entry}
use plugkill.State.{
  DaemonState, PairingWindow, Violation, enforce, learn, new_state, device_violation, display_limit,
  same_event, last_violation,
}
use plugkill.State.History.{IsHistory}
use plugkill.Socket.Timing.{IsTimed}
use plugkill.Monitor.{drain, settle}
use plugkill.Monitor.Rearm.{drain_rearms}
use plugkill.Monitor.Verdict.{removal_kills, learn_never_kills, LetIn, Counted, window_spares_once}

abbrev start : DaemonState
start = new_state enforce (codes "/etc/plugkill/config.toml") 0

abbrev disarmed : DaemonState
disarmed = record start { armed = false; disarm_until = some 60 }

drain_rearms_example :
    let (d, st') = drain disarmed 71 70 in
    (d.is_armed ≡ false → 71 < 5 + from_secs 3600)
    × (d.is_armed ≡ true → disarmed.armed ≡ false → d.needs_rebaseline ≡ true)
    × IsTimed 5 st'
unfolding new_state
drain_rearms_example =
    drain_rearms disarmed 5 71 70 (inr (refl, (60, (refl, unfold from_secs in omega arith))))

abbrev stick : DeviceRef
stick = usb (record { vendor_id = codes "0781"; product_id = codes "5567" })

abbrev phone : DeviceRef
phone = usb (record { vendor_id = codes "18d1"; product_id = codes "4ee1" })

abbrev plugged : DeviceRef → Violation
plugged id = device_violation (codes "USB VIOLATION: unauthorized device added") id none true

abbrev unplugged : Violation
unplugged = device_violation (codes "USB VIOLATION: device removed") stick none false

removal_kills_example :
    let (killed, st') = settle start unplugged 7 9 true in
    (killed ≡ true)
    × IsHistory st'.violations
    × ((w : Violation) × ((last_violation st' ≡ some w) × (same_event w unplugged ≡ true)))
unfolding new_state device_violation
removal_kills_example =
    removal_kills start unplugged 7 9 true (record { bounded = omega arith; alternates = tt }) refl
      refl

abbrev window : PairingWindow
window = record { until = 100; ttl = none }

abbrev pairing : DaemonState
pairing = record start { pairing = some window }

window_spares_once_example :
    let (killed, st') = settle pairing (plugged stick) 7 9 true in
    (killed ≡ false)
    × (is_some (entry st'.allowances stick) ≡ true)
    × ((settle st' (plugged phone) 8 9 true).0 ≡ true)
unfolding new_state new_table device_violation display_limit
window_spares_once_example =
    window_spares_once pairing window (plugged stick) (plugged phone) stick phone 7 9 8 true tt refl
      refl (omega arith) (refl, refl) (refl, refl) refl

abbrev cable : NetworkSnapshot
cable = record { interfaces = (codes "eth0", up) ∷ (codes "eth1", down) ∷ [] }

abbrev cut : NetworkSnapshot
cut = record { interfaces = (codes "eth0", down) ∷ (codes "eth1", down) ∷ [] }

abbrev learning : DaemonState
learning = record pairing { mode = learn }

learn_never_kills_example :
    let (killed, st') = settle learning (plugged stick) 7 9 true in
    (killed ≡ false)
    × (LetIn learning st' (plugged stick) 7 true ⊎ Counted learning st' (plugged stick) 7 true)
unfolding new_state new_table device_violation
learn_never_kills_example =
    learn_never_kills learning (plugged stick) 7 9 true tt
      (record { bounded = omega arith; alternates = tt }) refl (λ h. refl)
