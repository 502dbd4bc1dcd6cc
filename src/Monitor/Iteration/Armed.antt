-- ===== src/Monitor/Iteration/Armed.antt =====
-- The iteration that arms the daemon again: baselines and checks over the same hardware.
use plugkill.Prelude.{
  refl, Bool, ℕ, list_eq, nat_eq, ◌≡◌, arith, true, false, none, some, List, UniqueKeys, is_empty,
  if◌then◌else◌, ok, Bool-cases, Result-cases, inl, inr,
}
use plugkill.Config.{Config}
use plugkill.Allowances.{DeviceRef}
use plugkill.State.{DaemonState}
use plugkill.Usb.{DeviceSnapshot}
use plugkill.Usb.Detect.{IsSnapshot}
use plugkill.Pci.{PciSnapshot}
use plugkill.Display.Detect.{IsNamed}
use plugkill.Monitor.{drain, rearm, poll_action}
use plugkill.Monitor.Allowed.{allowed_ids, pci_ignore, skip_usb, skip_thunderbolt, skip_sdcard}
use plugkill.Monitor.Detection.{Baselines, map_option, detect_violations}
use plugkill.Monitor.Detection.Silence.{detect_violations-IsQuiet}
use plugkill.Monitor.Buses.{enumerate_pci, hide_allowed_displays}
use plugkill.Monitor.Capture.{
  Hardware, capture_baselines, from_reading, clear_unwatched, capture_devices, capture_events,
  capture_pci, capture_usb, capture_thunderbolt, capture_sdcard, skip_allowed, reset_captured,
  reset_power, reset_network, reset_lid,
}
use plugkill.Monitor.Capture.Silence.{HasRoom, usb_fresh, thunderbolt_fresh, sd_card_fresh}
use plugkill.Monitor.Capture.Events.{}
use plugkill.Monitor.Iteration.Chain.{power_none}
use plugkill.Monitor.Iteration.{
  Daemon, Inputs, rebaseline, reload, check_all, conclude, act, iterate,
}

-- What the buses answer, well formed: USB counts that fit, interfaces and connectors named once.
pub record IsSteady (cfg : Config) (allowed : List DeviceRef) (h : Hardware) : Type 0 where
  pub usb : (s : DeviceSnapshot) → h.readings.usb ≡ ok s → IsSnapshot s × HasRoom cfg allowed s
  pub interfaces : UniqueKeys (h.network cfg.network.interfaces).interfaces
  pub connectors : IsNamed (h.display cfg.display.ignore)

module _ (cfg : Config) (bl : Baselines) (st : DaemonState) (h : Hardware) (now : ℕ) where
  abbrev allowed : List DeviceRef
  allowed = allowed_ids st now

  abbrev fresh : Baselines
  fresh = (capture_baselines cfg bl st h false now).0

  captured_usb : fresh.usb ≡ (
      if cfg.general.watch_usb
      then map_option
          (λ s. if is_empty allowed then s else skip_usb s allowed)
          (from_reading h.readings.usb)
      else none)
  unfolding capture_baselines clear_unwatched capture_devices capture_events skip_allowed
      capture_usb capture_thunderbolt capture_sdcard
  captured_usb = elim (Result-cases h.readings.usb) [
    | inl (x, r) ↦ ground arith
    | inr (s, r) ↦ ground arith
  ]

  captured_thunderbolt : fresh.thunderbolt ≡ (
      if cfg.general.watch_thunderbolt
      then map_option
          (λ s. if is_empty allowed then s else skip_thunderbolt s allowed)
          (from_reading h.readings.thunderbolt)
      else none)
  unfolding capture_baselines clear_unwatched capture_devices capture_events skip_allowed
      capture_usb capture_thunderbolt capture_sdcard
  captured_thunderbolt = elim (Result-cases h.readings.thunderbolt) [
    | inl (x, r) ↦ ground arith
    | inr (s, r) ↦ ground arith
  ]

  captured_sdcard : fresh.sdcard ≡ (
      if cfg.general.watch_sdcard
      then map_option
          (λ s. if is_empty allowed then s else skip_sdcard s allowed)
          (from_reading h.readings.sdcard)
      else none)
  unfolding capture_baselines clear_unwatched capture_devices capture_events skip_allowed
      capture_usb capture_thunderbolt capture_sdcard
  captured_sdcard = elim (Result-cases h.readings.sdcard) [
    | inl (x, r) ↦ ground arith
    | inr (s, r) ↦ ground arith
  ]

  captured_power : fresh.power ≡ (if cfg.general.watch_power then some h.power else none)
  unfolding capture_baselines clear_unwatched capture_devices capture_events skip_allowed
      capture_usb capture_thunderbolt capture_sdcard
  captured_power = ground arith

  captured_network :
      fresh.network
      ≡ (if cfg.general.watch_network then some (h.network cfg.network.interfaces) else none)
  unfolding capture_baselines clear_unwatched capture_devices capture_events skip_allowed
      capture_usb capture_thunderbolt capture_sdcard
  captured_network = ground arith

  captured_lid : fresh.lid ≡ (if cfg.general.watch_lid then some h.lid else none)
  unfolding capture_baselines clear_unwatched capture_devices capture_events skip_allowed
      capture_usb capture_thunderbolt capture_sdcard
  captured_lid = ground arith

  captured_display : fresh.display ≡ (
      if cfg.general.watch_display
      then some (hide_allowed_displays (h.display cfg.display.ignore) allowed)
      else none)
  unfolding capture_baselines clear_unwatched capture_devices capture_events skip_allowed
      capture_usb capture_thunderbolt capture_sdcard hide_allowed_displays
  captured_display = elim (Bool-cases (is_empty allowed)) [
    | inl e ↦ ground arith
    | inr e ↦ ground arith
  ]

  captured_pci :
      (s : PciSnapshot)
      → enumerate_pci h.pci (pci_ignore cfg allowed) ≡ ok s
      → fresh.pci ≡ (if cfg.general.watch_pci then some s else none)
  unfolding capture_baselines clear_unwatched capture_devices capture_events skip_allowed
      capture_usb capture_thunderbolt capture_sdcard capture_pci
  captured_pci s e = ground arith

  same_allowances :
      (now' : ℕ)
      → allowed_ids (capture_baselines cfg bl st h false now).1 now' ≡ allowed_ids st now'
  unfolding capture_baselines reset_captured reset_power reset_network reset_lid allowed_ids
  same_allowances now' = ground arith

  -- The comparisons of the buses with a whitelist find nothing.
  detect_fresh :
      ((s : DeviceSnapshot) → h.readings.usb ≡ ok s → IsSnapshot s × HasRoom cfg allowed s)
      → detect_violations cfg fresh allowed h.readings ≡ none
  detect_fresh u = (detect_violations-IsQuiet cfg fresh allowed h.readings).1 (
    λ b w e. elim (Result-cases h.readings.usb) [
      | inl (x, r) ↦ absurd (ground (arith, captured_usb))
      | inr (s, r) ↦
          let (v, room) = u s r in
          let same : b ≡ (if is_empty allowed then s else skip_usb s allowed) =
            ground (arith, captured_usb) in
          (s, r, rw same (usb_fresh cfg allowed s v room))
    ],
    λ b w e. elim (Result-cases h.readings.thunderbolt) [
      | inl (x, r) ↦ absurd (ground (arith, captured_thunderbolt))
      | inr (s, r) ↦
          let same : b ≡ (if is_empty allowed then s else skip_thunderbolt s allowed) =
            ground (arith, captured_thunderbolt) in
          (s, r, rw same (thunderbolt_fresh cfg allowed s))
    ],
    λ b w e. elim (Result-cases h.readings.sdcard) [
      | inl (x, r) ↦ absurd (ground (arith, captured_sdcard))
      | inr (s, r) ↦
          let same : b ≡ (if is_empty allowed then s else skip_sdcard s allowed) =
            ground (arith, captured_sdcard) in
          (s, r, rw same (sd_card_fresh cfg allowed s))
    ],
  )

-- After a capture, the checks of the same hardware find nothing.
check_all_fresh :
    (w : Daemon) (i : Inputs)
    → i.polled ≡ i.rearmed
    → IsSteady w.config (allowed_ids w.state i.now) i.rearmed
    → (check_all (rebaseline true w i) i).0 ≡ none
unfolding check_all rebaseline
check_all_fresh w i same v =
    let cfg = w.config in
    let cap = capture_baselines cfg w.baselines w.state i.rearmed false i.now in
    let w' : Daemon = record w { baselines = cap.0; state = cap.1 } in
    let grants = allowed_ids w.state i.now in
    let still = same_allowances cfg w.baselines w.state i.rearmed i.now i.now in
    let d = detect_fresh cfg w.baselines w.state i.rearmed i.now v.usb in
    let p =
      power_none i grants w'
        (record {
          pci = rw same (captured_pci cfg w.baselines w.state i.rearmed i.now);
          display = rw same (captured_display cfg w.baselines w.state i.rearmed i.now);
          grants = still;
          connectors = rw same v.connectors;
        })
        (rw same (captured_lid cfg w.baselines w.state i.rearmed i.now))
        (rw same (captured_network cfg w.baselines w.state i.rearmed i.now))
        (rw same (captured_power cfg w.baselines w.state i.rearmed i.now)) (rw same v.interfaces) in
    ground (arith, still)

-- The daemon as the first critical section leaves it.
abbrev pub drained : Daemon → Inputs → Daemon
drained w i = record w { state = (drain w.state i.reading i.now).1 }

no_reload :
    (w : Daemon) (i : Inputs)
    → w.state.reload_pending ≡ false
    → reload (rebaseline true (drained w i) i) i ≡ rebaseline true (drained w i) i
unfolding reload rebaseline capture_baselines reset_captured reset_power reset_network reset_lid
    drain rearm
no_reload w i h = ground arith

act_fresh :
    (armed : Bool) (w : Daemon) (i : Inputs)
    → (check_all w i).0 ≡ none
    → (act (poll_action none armed) w i).0 ≡ false
unfolding act poll_action conclude
act_fresh true w i found = rw found refl
act_fresh false w i found = refl

-- An iteration that is told to capture its baselines again, with no kill and no reload queued, and
-- with the hardware at its checks as it was at the capture, finds nothing on any bus and does not
-- run the kill sequence: whatever was plugged in or allowed, whatever is switched off and whatever
-- could not be read. Counts fit, and interfaces and connectors are named once.
pub rearm_kills_nothing :
    (w : Daemon) (i : Inputs)
    → w.state.reload_pending ≡ false
    → (drain w.state i.reading i.now).0.needs_rebaseline ≡ true
    → (drain w.state i.reading i.now).0.remote_kill ≡ none
    → i.polled ≡ i.rearmed
    → IsSteady w.config (allowed_ids (drained w i).state i.now) i.rearmed
    → ((check_all (rebaseline true (drained w i) i) i).0 ≡ none) × ((iterate w i).0 ≡ false)
unfolding iterate
rearm_kills_nothing w i quiet needed none_queued same v =
    let found = check_all_fresh (drained w i) i same v in
    let armed = (drain w.state i.reading i.now).0.is_armed in
    (
      found,
      rw (needed, none_queued, no_reload w i quiet)
          (act_fresh armed (rebaseline true (drained w i) i) i found),
    )
