-- ===== src/Client/Show/Tells.antt =====
-- What the tray shows of a daemon that answers.
use plugkill.Prelude.{
  ℕ, ◌-◌, ◌≤◌, ◌≡◌, ◌≢◌, ◌↔◌, ◌⊎◌, refl, arith, true, false, none, some, list_eq, nat_eq, Text,
  codes, list_beq, text_eq_refl, ◌==◌, as_millis, div_ceil, Option-cases, inl, inr,
}
use plugkill.Config
use plugkill.Config.{Config}
use plugkill.State.{DaemonState, DaemonMode, enforce, learn, Grace, soonest_grace}
use plugkill.State.Pairing.{soonest_grace-IsSoonest}
use plugkill.Monitor.Detection.{Baselines}
use plugkill.Socket.Status.{
  Pending, Status, Live, handle_status, pending_violation, mode_text, counts,
}
use plugkill.Client.Show.{
  TrayState, down, disarmed, kill_pending, dry_run, learning, armed, from_status, from_armed,
  is_stalled, is_kill_pending,
}

module _ (st : DaemonState) (cfg : Config) (bl : Baselines) (live : Live) where
  -- A grace period that ends in a kill: it is running on a bus that is watched under a policy that
  -- does more than monitor.
  abbrev pub IsRunning : Text → Grace → Type 0
  IsRunning bus g =
      ((bus ≡ codes "power")
        × (cfg.general.watch_power ≡ true)
        × (cfg.power.policy ≢ Config.PowerPolicy.monitor)
        × (st.power_grace ≡ some g))
      ⊎ (((bus ≡ codes "network")
            × (cfg.general.watch_network ≡ true)
            × (cfg.network.policy ≢ Config.NetworkPolicy.monitor)
            × (st.network_grace ≡ some g))
          ⊎ ((bus ≡ codes "lid")
              × (cfg.general.watch_lid ≡ true)
              × (cfg.lid.policy ≢ Config.LidPolicy.monitor)
              × (st.lid_grace ≡ some g)))

  -- A daemon that a violation makes kill, and whose loop has not stopped.
  pub record IsActing : Type 0 where
    pub on_guard : st.armed ≡ true
    pub enforcing : st.mode ≡ enforce
    pub in_earnest : cfg.general.dry_run ≡ false
    pub polling : (t : ℕ) → st.last_poll ≡ some t → as_millis (live.poll_now - t) ≤ 30_000

  -- What a state on screen says of the daemon.
  abbrev pub Tells : TrayState → Type 0
  Tells (kill_pending bus reason left) =
      IsActing
      × ((g : Grace) × IsRunning bus g
          × ((b : Text) (h : Grace) → IsRunning b h → g.until ≤ h.until)
          × (reason ≡ g.reason)
          × (left ≡ div_ceil (as_millis (g.until - live.now)) 1000))
  Tells shown = IsActing → (bus : Text) (g : Grace) → ¬ IsRunning bus g

  abbrev pub on_screen : TrayState
  on_screen = from_status (some (handle_status st cfg bl live))

  power_counts :
      (counts cfg (codes "power") ≡ true)
      ↔ ((cfg.general.watch_power ≡ true) × (cfg.power.policy ≢ Config.PowerPolicy.monitor))
  unfolding counts list_beq
  power_counts = (λ h. (ground arith, λ e. ground arith), λ (w, p). ground arith)

  network_counts :
      (counts cfg (codes "network") ≡ true)
      ↔ ((cfg.general.watch_network ≡ true) × (cfg.network.policy ≢ Config.NetworkPolicy.monitor))
  unfolding counts list_beq
  network_counts = (λ h. (ground arith, λ e. ground arith), λ (w, p). ground arith)

  lid_counts :
      (counts cfg (codes "lid") ≡ true)
      ↔ ((cfg.general.watch_lid ≡ true) × (cfg.lid.policy ≢ Config.LidPolicy.monitor))
  unfolding counts list_beq
  lid_counts = (λ h. (ground arith, λ e. ground arith), λ (w, p). ground arith)

  -- The grace period that the status tells of, and that there is none.
  first-IsRunning :
      (bus : Text) (g : Grace)
      → soonest_grace st (counts cfg) ≡ some (bus, g)
      → IsRunning bus g × ((b : Text) (h : Grace) → IsRunning b h → g.until ≤ h.until)
  first-IsRunning bus g e =
      let (found, power, network, lid) =
        soonest_grace-IsSoonest st (counts cfg) (some (bus, g)) e in
      (
        elim found [
          | inl (b, (c, q)) ↦ let (w, p) = power_counts.0 c in inl (b, w, p, q)
          | inr (inl (b, (c, q))) ↦ let (w, p) = network_counts.0 c in inr (inl (b, w, p, q))
          | inr (inr (b, (c, q))) ↦ let (w, p) = lid_counts.0 c in inr (inr (b, w, p, q))
        ],
        λ b h r. elim r [
          | inl (n, w, p, q) ↦ power h (power_counts.1 (w, p), q)
          | inr (inl (n, w, p, q)) ↦ network h (network_counts.1 (w, p), q)
          | inr (inr (n, w, p, q)) ↦ lid h (lid_counts.1 (w, p), q)
        ],
      )

  none-IsRunning :
      soonest_grace st (counts cfg) ≡ none → (bus : Text) (g : Grace) → ¬ IsRunning bus g
  none-IsRunning e bus g r =
      let (power, network, lid) = soonest_grace-IsSoonest st (counts cfg) none e g in
      elim r [
        | inl (n, w, p, q) ↦ power (power_counts.1 (w, p), q)
        | inr (inl (n, w, p, q)) ↦ network (network_counts.1 (w, p), q)
        | inr (inr (n, w, p, q)) ↦ lid (lid_counts.1 (w, p), q)
      ]

  abbrev status : Status
  status = handle_status st cfg bl live

  enforce-mode : (m : DaemonMode) → (mode_text m == codes "enforce") ≡ true → m ≡ enforce
  unfolding mode_text list_beq
  enforce-mode enforce h = refl
  enforce-mode learn h = ground arith

  mode-enforce : (m : DaemonMode) → m ≡ enforce → (mode_text m == codes "enforce") ≡ true
  unfolding mode_text
  mode-enforce m h = rw h (text_eq_refl (codes "enforce"))

  is_polling :
      is_stalled status.last_poll_ms_ago ≡ false
      → (t : ℕ) → st.last_poll ≡ some t
      → as_millis (live.poll_now - t) ≤ 30_000
  unfolding handle_status
  is_polling h t e = ground arith

  not_stalled :
      ((t : ℕ) → st.last_poll ≡ some t → as_millis (live.poll_now - t) ≤ 30_000)
      → is_stalled status.last_poll_ms_ago ≡ false
  unfolding handle_status
  not_stalled h = elim (Option-cases st.last_poll) [
    | inl e ↦ ground arith
    | inr (t, e) ↦ let l = h t e in ground arith
  ]

  abbrev countdown : Text → Grace → Pending
  countdown bus g = record {
    bus = bus;
    reason = g.reason;
    secs_left = div_ceil (as_millis (g.until - live.now)) 1000;
  }

  -- What the countdown on screen rests on.
  shown-status :
      (bus reason : Text) (left : ℕ)
      → on_screen ≡ kill_pending bus reason left
      → (status.armed ≡ true)
        × ((status.mode == codes "enforce") ≡ true)
        × (status.dry_run ≡ false)
        × (is_stalled status.last_poll_ms_ago ≡ false)
        × (status.pending_violation
            ≡ some (record { bus = bus; reason = reason; secs_left = left }))
  unfolding from_status from_armed
  shown-status bus reason left h = elim (Option-cases status.pending_violation) [
    | inl e ↦ (ground arith, ground arith, ground arith, ground arith, ground arith)
    | inr (p, e) ↦
        let b : p.bus ≡ bus = ground arith in
        let r : p.reason ≡ reason = ground arith in
        let l : p.secs_left ≡ left = ground arith in
        (ground arith, ground arith, ground arith, ground arith, ground arith)
  ]

  pending-soonest :
      (bus reason : Text) (left : ℕ)
      → status.pending_violation ≡ some (record { bus = bus; reason = reason; secs_left = left })
      → (g : Grace) × (soonest_grace st (counts cfg) ≡ some (bus, g))
        × (reason ≡ g.reason)
        × (left ≡ div_ceil (as_millis (g.until - live.now)) 1000)
  unfolding handle_status pending_violation
  pending-soonest bus reason left h = elim (Option-cases (soonest_grace st (counts cfg))) [
    | inl e ↦ ground arith
    | inr ((b, g), e) ↦
        let n : b ≡ bus = ground arith in (g, ground arith, ground arith, ground arith)
  ]

  soonest-shown :
      (bus : Text) (g : Grace)
      → IsActing
      → soonest_grace st (counts cfg) ≡ some (bus, g)
      → is_kill_pending on_screen ≡ true
  soonest-shown bus g a e =
      let up = a.on_guard in
      let dry = a.in_earnest in
      let p : pending_violation st cfg live.now ≡ some (countdown bus g) =
        unfold pending_violation in ground arith in
      let mode = mode-enforce st.mode a.enforcing in
      let alive = not_stalled a.polling in
      unfold from_status from_armed handle_status in ground arith

  not_shown :
      (shown : TrayState)
      → on_screen ≡ shown
      → is_kill_pending shown ≡ false
      → IsActing
      → (bus : Text) (g : Grace) → ¬ IsRunning bus g
  not_shown shown e k a = elim (Option-cases (soonest_grace st (counts cfg))) [
    | inl n ↦ none-IsRunning n
    | inr ((bus, g), s) ↦ absurd (let t = soonest-shown bus g a s in ground arith)
  ]

  told : (shown : TrayState) → on_screen ≡ shown → Tells shown
  told (kill_pending bus reason left) e =
      let (up, mode, dry, alive, p) = shown-status bus reason left e in
      let (g, s, r, l) = pending-soonest bus reason left p in
      let (running, least) = first-IsRunning bus g s in
      (
        record {
          on_guard = unfold handle_status in up;
          enforcing = enforce-mode st.mode (unfold handle_status in mode);
          in_earnest = unfold handle_status in dry;
          polling = is_polling alive;
        },
        (g, running, least, r, l),
      )
  told (down stalled) e = not_shown (down stalled) e refl
  told (disarmed secs) e = not_shown (disarmed secs) e refl
  told dry_run e = not_shown dry_run e refl
  told learning e = not_shown learning e refl
  told armed e = not_shown armed e refl

  -- The tray tells of a kill that is coming, and of no other. A countdown on screen means that the
  -- daemon is armed and enforces, that it is no dry run and that its loop has polled in the last
  -- thirty seconds if ever, and shows a grace period that is running on a watched bus whose policy
  -- is not to monitor, no such period ending sooner, with its bus, its reason and its seconds left,
  -- rounded up. Where something else is on screen and the daemon is all that, no such grace period
  -- is running.
  pub on_screen-Tells : Tells on_screen
  on_screen-Tells = told on_screen refl
