-- ===== src/State.antt =====
-- crates/plugkill-core/src/state.rs and crates/plugkill/src/daemon_state.rs: the state that the
-- poll loop and the socket handlers share. Clock readings are arguments.
pub mod History
pub mod Pairing
pub mod Waiting
use plugkill.Prelude.{
  ℕ, ◌+◌, ◌≡◌, Bool, true, false, not, ◌&&◌, Option, none, some, List, [], ◌∷◌, ltb, leb,
  if◌then◌else◌, ◌==◌, Eq, nat_eq, list_eq, option_eq, take, filter, filter_map, Text, codes,
}
use plugkill.Allowances.{
  DeviceRef, display, device_ref_eq, Grant, paired, Allowance, AllowanceTable, bus, new_allowance,
  with_name, new_table, add,
}

pub data DaemonMode : Type 0 where
  enforce learn : DaemonMode

abbrev pub history_len : ℕ
history_len = 50

pub record Grace : Type 0 where
  pub until : ℕ
  pub reason : Text

pub record PairingWindow : Type 0 where
  pub until : ℕ
  pub ttl : Option ℕ

pub record Violation : Type 0 where
  pub description : Text
  pub bus : Text
  pub id : Option DeviceRef
  pub name : Option Text
  pub appeared : Bool

-- `Violation::device`
unfoldable pub device_violation : Text → DeviceRef → Option Text → Bool → Violation
device_violation description id name appeared = record {
  description = description;
  bus = bus id;
  id = some id;
  name = name;
  appeared = appeared;
}

-- `Violation::event`
unfoldable pub event_violation : Text → Text → Violation
event_violation bus description = record {
  description = description;
  bus = bus;
  id = none;
  name = none;
  appeared = false;
}

pub record DaemonState : Type 0 where
  pub armed : Bool
  pub mode : DaemonMode
  pub disarm_until : Option ℕ
  pub started_at : ℕ
  pub violations_logged : ℕ
  pub last_poll : Option ℕ
  pub reload_pending : Bool
  pub rebaseline_pending : Bool
  pub kill_pending : Option Text
  pub power_unplug_at : Option ℕ
  pub power_trigger_once_fired : Bool
  pub network_link_down_at : Option ℕ
  pub lid_close_at : Option ℕ
  pub power_grace : Option Grace
  pub network_grace : Option Grace
  pub lid_grace : Option Grace
  pub allowances : AllowanceTable
  pub pairing : Option PairingWindow
  pub config_path : Text
  pub violations : List (ℕ × Violation)

-- `DaemonState::new`, at the clock reading `now`
unfoldable pub new_state : DaemonMode → Text → ℕ → DaemonState
unfolding new_table
new_state mode config_path now = record {
  armed = true;
  mode = mode;
  disarm_until = none;
  started_at = now;
  violations_logged = 0;
  last_poll = none;
  reload_pending = false;
  rebaseline_pending = false;
  kill_pending = none;
  power_unplug_at = none;
  power_trigger_once_fired = false;
  network_link_down_at = none;
  lid_close_at = none;
  power_grace = none;
  network_grace = none;
  lid_grace = none;
  allowances = new_table;
  pairing = none;
  config_path = config_path;
  violations = [];
}

-- The condition under which a violation only refreshes the head of the history.
unfoldable pub same_event : Violation → Violation → Bool
same_event head v = head.bus == v.bus && head.id == v.id && head.description == v.description

-- `push_front` and `truncate`
unfoldable pub push_violation : ℕ → Violation → List (ℕ × Violation) → List (ℕ × Violation)
push_violation at v history = take history_len ((at, v) ∷ history)

unfoldable pub record_in : ℕ → Violation → List (ℕ × Violation) → List (ℕ × Violation)
unfolding same_event push_violation
record_in at v [] = push_violation at v []
record_in at v ((head_at, head) ∷ rest) =
    if same_event head v then (at, head) ∷ rest else push_violation at v ((head_at, head) ∷ rest)

-- `record_violation`, at the unix second `at`
unfoldable pub record_violation : DaemonState → ℕ → Violation → DaemonState
unfolding record_in
record_violation st at v = record st { violations = record_in at v st.violations }

unfoldable pub last_violation : DaemonState → Option Violation
last_violation st = elim st.violations [ [] ↦ none | head ∷ rest ↦ some head.1 ]

unfoldable pub is_disarm_expired : DaemonState → ℕ → Bool
is_disarm_expired st now = elim st.disarm_until [ none ↦ false | some deadline ↦ leb deadline now ]

-- The refusal of `display_limit` in crates/plugkill/src/socket.rs: no display allowance where the
-- platform cannot identify a monitor.
unfoldable pub display_limit : DeviceRef → Bool → Option Text
display_limit (display id) has_identity =
    if has_identity
    then none
    else some (
        codes
          "this platform reports a display event counter with no connector data, so a monitor cannot be identified and a display cannot be allowed")
display_limit _ has_identity = none

-- `self.pairing.filter(|w| w.until > now)`
abbrev pub open_window : Option PairingWindow → ℕ → Option PairingWindow
open_window none now = none
open_window (some w) now = if ltb now w.until then some w else none

-- What `admit_paired` does under an open window.
unfoldable pub admit_under :
    PairingWindow → DaemonState → DeviceRef → Option Text → ℕ → Bool → DaemonState × Bool
unfolding display_limit new_allowance with_name
admit_under window st id name now has_identity = elim (display_limit id has_identity) [
  | some limit ↦ (st, false)
  | none ↦ (
    record st {
      allowances = (add st.allowances (with_name (new_allowance id paired now window.ttl) name)).1;
      pairing = none;
    },
    true,
  )
]

unfoldable pub admit_paired : DaemonState → DeviceRef → Option Text → ℕ → Bool → DaemonState × Bool
unfolding admit_under
admit_paired st id name now has_identity = elim (open_window st.pairing now) [
  | none ↦ (st, false)
  | some window ↦ admit_under window st id name now has_identity
]

-- `min_by_key` on the deadline: the first of the least.
unfoldable pub min_by_until : Text × Grace → List (Text × Grace) → Text × Grace
min_by_until best [] = best
min_by_until best (g ∷ rest) = min_by_until (if ltb g.1.until best.1.until then g else best) rest

unfoldable pub soonest : List (Text × Grace) → Option (Text × Grace)
unfolding min_by_until
soonest [] = none
soonest (g ∷ rest) = some (min_by_until g rest)

abbrev pub running_grace : Text × Option Grace → Option (Text × Grace)
running_grace (bus, none) = none
running_grace (bus, some g) = some (bus, g)

unfoldable pub soonest_grace : DaemonState → (Text → Bool) → Option (Text × Grace)
unfolding soonest filter filter_map
soonest_grace st counts = soonest (
    filter_map running_grace (
      filter (λ (b : Text × Option Grace). counts b.0)
        ((codes "power", st.power_grace)
          ∷ (codes "network", st.network_grace)
          ∷ (codes "lid", st.lid_grace)
          ∷ [])))
