-- ===== src/Monitor.antt =====
-- crates/plugkill/src/main.rs: what one iteration of the poll loop does with the shared state before
-- and after the bus checks. The clock is an argument; the journal lines have no counterpart.
pub mod Rearm
pub mod Verdict
pub mod Allowed
pub mod Detection
pub mod Buses
pub mod Capture
pub mod Iteration
use plugkill.Prelude.{
  ℕ, ◌+◌, Bool, true, false, not, ◌&&◌, Option, none, some, ◌++◌, leb, if◌then◌else◌, from_secs,
  Text, codes,
}
use plugkill.Allowances.{DeviceRef, due_to_warn, sweep}
use plugkill.State.{
  DaemonState, enforce, learn, PairingWindow, Violation, is_disarm_expired, admit_paired,
  record_violation,
}

abbrev pub expiry_warn_ahead : ℕ
expiry_warn_ahead = from_secs 60

-- The re-arm when a disarm has run out.
unfoldable pub rearm : DaemonState → ℕ → DaemonState
unfolding is_disarm_expired
rearm st now =
    if not st.armed && is_disarm_expired st now
    then record st { armed = true; disarm_until = none; rebaseline_pending = true }
    else st

-- A pairing window that has run out is closed.
unfoldable pub close_window : Option PairingWindow → ℕ → Option PairingWindow
close_window none now = none
close_window (some w) now = if leb w.until now then none else some w

-- What an iteration takes out of the state under one lock.
pub record Drained : Type 0 where
  pub needs_rebaseline : Bool
  pub is_armed : Bool
  pub remote_kill : Option Text

-- The first critical section of an iteration. `is_disarm_expired` reads the clock for itself:
-- `reading`.
unfoldable pub drain : DaemonState → ℕ → ℕ → Drained × DaemonState
unfolding rearm close_window due_to_warn sweep from_secs
drain st reading now =
    let st1 = rearm st reading in
    let warned = (due_to_warn st1.allowances now expiry_warn_ahead).1 in
    (
      record {
        needs_rebaseline = st1.rebaseline_pending;
        is_armed = st1.armed;
        remote_kill = st1.kill_pending;
      },
      record st1 {
        allowances = (sweep warned now).1;
        pairing = close_window st1.pairing now;
        rebaseline_pending = false;
        kill_pending = none;
      },
    )

pub data PollAction : Type 0 where
  skip : PollAction
  kill : Text → PollAction
  check : PollAction

unfoldable pub poll_action : Option Text → Bool → PollAction
poll_action (some reason) is_armed =
    kill (codes "RELAY VIOLATION: remote kill from peer: " ++ reason)
poll_action none is_armed = if is_armed then check else skip

-- An appearance goes to `admit_paired`; without an identity it is no violation.
unfoldable pub admit_or_keep : DaemonState → Violation → ℕ → Bool → Option Violation × DaemonState
unfolding admit_paired
admit_or_keep st violation now has_identity =
    if not violation.appeared then (some violation, st) else elim violation.id [
      | none ↦ (none, st)
      | some id ↦
          let (st', admitted) = admit_paired st id violation.name now has_identity in
          (if admitted then none else some violation, st')
    ]

-- Whether the kill sequence runs.
unfoldable pub handle_violation : DaemonState → Bool × DaemonState
handle_violation st = elim st.mode [
  | enforce ↦ (true, st)
  | learn ↦ (false, record st { violations_logged = st.violations_logged + 1 })
]

-- The end of an iteration that found a violation: the pairing window, the history at the unix
-- second `at`, and the mode decide.
unfoldable pub settle : DaemonState → Violation → ℕ → ℕ → Bool → Bool × DaemonState
unfolding admit_or_keep handle_violation record_violation
settle st violation now at has_identity =
    let (kept, st') = admit_or_keep st violation now has_identity in
    elim kept [ none ↦ (false, st') | some v ↦ handle_violation (record_violation st' at v) ]
