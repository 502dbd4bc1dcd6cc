-- ===== src/Monitor/Iteration/Chain.antt =====
-- The chain of checks of an iteration, where every baseline is the reading itself.
use plugkill.Prelude.{
  ℕ, list_eq, nat_eq, ◌≡◌, arith, Bool, Option, none, some, List, UniqueKeys, if◌then◌else◌, ok,
  Bool-cases, Result-cases, inl, inr,
}
use plugkill.Config.{Config}
use plugkill.Allowances.{DeviceRef}
use plugkill.State.{DaemonState}
use plugkill.Pci.{PciSnapshot}
use plugkill.Display.{DisplaySnapshot}
use plugkill.Display.Detect.{IsNamed}
use plugkill.Power
use plugkill.Power.{PowerState, check_power, acting, on_battery, fire}
use plugkill.Network.Check
use plugkill.Network.Check.{check_network}
use plugkill.Lid
use plugkill.Lid.{check_lid}
use plugkill.Network.{NetworkSnapshot}
use plugkill.Lid.{LidState}
use plugkill.Monitor.Allowed.{allowed_ids, pci_ignore}
use plugkill.Monitor.Buses.{enumerate_pci, check_pci, check_display, hide_allowed_displays}
use plugkill.Monitor.Capture.{Hardware}
use plugkill.Monitor.Capture.Events.{
  power_fresh, network_fresh, lid_fresh, compare_pci_fresh, compare_display_fresh,
}
use plugkill.Monitor.Iteration.{
  Daemon, Inputs, check_displays, check_pci_on, check_lid_on, check_network_on, check_power_on,
}

check_power-allowances :
    (cfg : Config) (baseline : Option PowerState) (current : PowerState) (locked : Option Bool)
    (st : DaemonState) (now : ℕ)
    → (check_power cfg baseline current locked st now).1.1.allowances ≡ st.allowances
unfolding check_power acting on_battery Power.wait fire
check_power-allowances cfg baseline current locked st now = ground arith

check_network-allowances :
    (cfg : Config) (baseline : Option NetworkSnapshot) (current : NetworkSnapshot)
    (st : DaemonState) (now : ℕ)
    → (check_network cfg baseline current st now).1.1.allowances ≡ st.allowances
unfolding check_network Check.wait
check_network-allowances cfg baseline current st now = ground arith

check_lid-allowances :
    (cfg : Config) (baseline : Option LidState) (current : LidState) (st : DaemonState) (now : ℕ)
    → (check_lid cfg baseline current st now).1.1.allowances ≡ st.allowances
unfolding check_lid Lid.wait
check_lid-allowances cfg baseline current st now = ground arith

-- The baseline of a bus without a whitelist, where it is the reading.
abbrev pub read_if : {A : Type 0} → Bool → A → Option A
read_if watched reading = if watched then some reading else none

abbrev pub PciFresh : Config → List DeviceRef → Hardware → Option PciSnapshot → Type 0
PciFresh cfg allowed h baseline =
    (s : PciSnapshot)
    → enumerate_pci h.pci (pci_ignore cfg allowed) ≡ ok s
    → baseline ≡ read_if cfg.general.watch_pci s

abbrev pub DisplayFresh : Config → List DeviceRef → Hardware → Option DisplaySnapshot → Type 0
DisplayFresh cfg allowed h baseline =
    baseline
    ≡ read_if cfg.general.watch_display
        (hide_allowed_displays (h.display cfg.display.ignore) allowed)

module _ (i : Inputs) (allowed : List DeviceRef) where
  -- What the later checks see of a daemon.
  pub record IsReady (w : Daemon) : Type 0 where
    pub pci : PciFresh w.config allowed i.polled w.baselines.pci
    pub display : DisplayFresh w.config allowed i.polled w.baselines.display
    pub grants : allowed_ids w.state i.now ≡ allowed
    pub connectors : IsNamed (i.polled.display w.config.display.ignore)

  displays_none : (w : Daemon) → IsReady w → (check_displays w i).0 ≡ none
  unfolding check_displays check_display
  displays_none w r =
      let q =
        compare_display_fresh w.config (i.polled.display w.config.display.ignore) allowed
          r.connectors in
      ground (arith, r.display, r.grants)

  pci_found :
      (w : Daemon) → IsReady w → (check_pci w.config w.baselines.pci allowed i.polled.pci).0 ≡ none
  unfolding check_pci
  pci_found w r = elim (Result-cases (enumerate_pci i.polled.pci (pci_ignore w.config allowed))) [
    | inl (x, e) ↦ ground arith
    | inr (s, e) ↦
        let q = compare_pci_fresh w.config s in
        let b = r.pci s e in
        elim (Bool-cases w.config.general.watch_pci) [ inl g ↦ ground arith | inr g ↦ ground arith ]
  ]

  pci_none : (w : Daemon) → IsReady w → (check_pci_on w i).0 ≡ none
  unfolding check_pci_on check_displays check_display
  pci_none w r = let q = pci_found w r in let d = displays_none w r in ground (arith, r.grants)

  lid_none :
      (w : Daemon)
      → IsReady w
      → w.baselines.lid ≡ read_if w.config.general.watch_lid i.polled.lid
      → (check_lid_on w i).0 ≡ none
  unfolding check_lid_on
  lid_none w r l =
      let c = check_lid w.config w.baselines.lid i.polled.lid w.state i.lid_now in
      let q : c.0 ≡ none = elim (Bool-cases w.config.general.watch_lid) [
        | inl g ↦ ground (arith, lid_fresh w.config i.polled.lid w.state i.lid_now)
        | inr g ↦ unfold check_lid in ground arith
      ] in
      let a = check_lid-allowances w.config w.baselines.lid i.polled.lid w.state i.lid_now in
      let w' : Daemon = record w {
        baselines = record w.baselines { lid = c.1.0 };
        state = c.1.1;
      } in
      let later = pci_none w' (record {
        pci = r.pci;
        display = r.display;
        grants = (unfold allowed_ids in rw a r.grants);
        connectors = r.connectors;
      }) in
      ground arith

  network_none :
      (w : Daemon)
      → IsReady w
      → w.baselines.lid ≡ read_if w.config.general.watch_lid i.polled.lid
      → w.baselines.network
        ≡ read_if w.config.general.watch_network (i.polled.network w.config.network.interfaces)
      → UniqueKeys (i.polled.network w.config.network.interfaces).interfaces
      → (check_network_on w i).0 ≡ none
  unfolding check_network_on
  network_none w r l n u =
      let s = i.polled.network w.config.network.interfaces in
      let c = check_network w.config w.baselines.network s w.state i.network_now in
      let q : c.0 ≡ none = elim (Bool-cases w.config.general.watch_network) [
        | inl g ↦ ground (arith, network_fresh w.config s w.state i.network_now u)
        | inr g ↦ unfold check_network in ground arith
      ] in
      let a = check_network-allowances w.config w.baselines.network s w.state i.network_now in
      let w' : Daemon = record w {
        baselines = record w.baselines { network = c.1.0 };
        state = c.1.1;
      } in
      let later =
        lid_none w'
          (record {
            pci = r.pci;
            display = r.display;
            grants = (unfold allowed_ids in rw a r.grants);
            connectors = r.connectors;
          })
          l in
      ground arith

  -- Over fresh baselines the checks from power to displays find nothing.
  pub power_none :
      (w : Daemon)
      → IsReady w
      → w.baselines.lid ≡ read_if w.config.general.watch_lid i.polled.lid
      → w.baselines.network
        ≡ read_if w.config.general.watch_network (i.polled.network w.config.network.interfaces)
      → w.baselines.power ≡ read_if w.config.general.watch_power i.polled.power
      → UniqueKeys (i.polled.network w.config.network.interfaces).interfaces
      → (check_power_on w i).0 ≡ none
  unfolding check_power_on
  power_none w r l n p u =
      let c =
        check_power w.config w.baselines.power i.polled.power i.polled.locked w.state i.power_now in
      let q : c.0 ≡ none = elim (Bool-cases w.config.general.watch_power) [
        | inl g ↦
            ground (arith, power_fresh w.config i.polled.power i.polled.locked w.state i.power_now)
        | inr g ↦ unfold check_power in ground arith
      ] in
      let a =
        check_power-allowances w.config w.baselines.power i.polled.power i.polled.locked w.state
          i.power_now in
      let w' : Daemon = record w {
        baselines = record w.baselines { power = c.1.0 };
        state = c.1.1;
      } in
      let later =
        network_none w'
          (record {
            pci = r.pci;
            display = r.display;
            grants = (unfold allowed_ids in rw a r.grants);
            connectors = r.connectors;
          })
          l n u in
      ground arith
