-- ===== src/Monitor/Iteration/Killed.antt =====
-- A queued kill, from the control socket's answer to the end of the iteration that takes it.
use plugkill.Prelude.{
  ℕ, ◌∙◌, ap, ◌≡◌, ◌++◌, refl, arith, Bool, true, false, Option, none, some, Text, codes,
}
use plugkill.State.{
  DaemonState, DaemonMode, enforce, learn, Violation, event_violation, same_event, last_violation,
  record_violation,
}
use plugkill.State.History.{IsHistory, record_violation-IsHistory}
use plugkill.Ipc.{ok_response, err_response}
use plugkill.Socket.{handle_kill}
use plugkill.Monitor.{drain, rearm, poll_action, settle, admit_or_keep, handle_violation}
use plugkill.Monitor.Capture.{
  capture_baselines, reset_captured, reset_power, reset_network, reset_lid,
}
use plugkill.Monitor.Iteration.{Daemon, Inputs, rebaseline, reload, conclude, act, iterate}

-- What the captures and the reload leave of the state.
abbrev Kept : DaemonState → DaemonState → Type 0
Kept st st' =
    (st'.violations ≡ st.violations) × (st'.mode ≡ st.mode) × (st'.kill_pending ≡ st.kill_pending)

rebaseline-Kept :
    (needed : Bool) (w : Daemon) (i : Inputs) → Kept w.state (rebaseline needed w i).state
unfolding rebaseline capture_baselines reset_captured reset_power reset_network reset_lid
rebaseline-Kept needed w i = (ground arith, ground arith, ground arith)

reload-Kept : (w : Daemon) (i : Inputs) → Kept w.state (reload w i).state
unfolding reload capture_baselines reset_captured reset_power reset_network reset_lid
reload-Kept w i = (ground arith, ground arith, ground arith)

drain-Kept :
    (st : DaemonState) (reason : Text) (i : Inputs)
    → st.kill_pending ≡ some reason
    → let (d, st') = drain st i.reading i.now in
      (d.remote_kill ≡ some reason)
      × (st'.violations ≡ st.violations)
      × (st'.mode ≡ st.mode)
      × (st'.kill_pending ≡ none)
unfolding drain rearm
drain-Kept st reason i h = (ground arith, ground arith, ground arith, refl)

abbrev pub enforces : DaemonMode → Bool
enforces enforce = true
enforces learn = false

abbrev pub relay_violation : Text → Violation
relay_violation reason =
    event_violation (codes "relay") (codes "RELAY VIOLATION: remote kill from peer: " ++ reason)

-- What an iteration that takes a kill leaves.
abbrev pub IsTaken : Text → DaemonState → Type 0
IsTaken reason st =
    (st.kill_pending ≡ none)
    × ((v : Violation) × (last_violation st ≡ some v)
        × (same_event v (relay_violation reason) ≡ true))

conclude_kill :
    (w : Daemon) (i : Inputs) (reason : Text)
    → IsHistory w.state.violations
    → w.state.kill_pending ≡ none
    → let (killed, after) = conclude (some (relay_violation reason)) w i in
      (killed ≡ enforces w.state.mode) × IsTaken reason after.state
unfolding conclude
conclude_kill w i reason h n =
    let (_, v, p, q) = record_violation-IsHistory w.state i.at (relay_violation reason) h in
    (
      (unfold settle admit_or_keep handle_violation record_violation event_violation in
          ground arith),
      (
        (unfold settle admit_or_keep handle_violation record_violation event_violation in
            ground arith),
        (
          v,
          (unfold settle admit_or_keep handle_violation record_violation event_violation
                last_violation in
              ground arith),
          q,
        ),
      ),
    )

queued_kill-IsTaken :
    (w : Daemon) (i : Inputs) (reason : Text)
    → IsHistory w.state.violations
    → w.state.kill_pending ≡ some reason
    → ((iterate w i).0 ≡ enforces w.state.mode) × IsTaken reason (iterate w i).1.state
queued_kill-IsTaken w i reason h q =
    let (d, st) = drain w.state i.reading i.now in
    let first : Daemon = record w { state = st } in
    let second = rebaseline d.needs_rebaseline first i in
    let third = reload second i in
    let (k, v0, m0, n0) = drain-Kept w.state reason i q in
    let (v1, m1, n1) = rebaseline-Kept d.needs_rebaseline first i in
    let (v2, m2, n2) = reload-Kept second i in
    let history : IsHistory third.state.violations = rw (v2 ∙ v1 ∙ v0) h in
    let mode : third.state.mode ≡ w.state.mode = m2 ∙ m1 ∙ m0 in
    let empty : third.state.kill_pending ≡ none = n2 ∙ n1 ∙ n0 in
    let same : iterate w i ≡ conclude (some (relay_violation reason)) third i =
      unfold iterate act poll_action in ground arith in
    let (killed, taken) = conclude_kill third i reason history empty in
    rw same (killed ∙ ap enforces mode, taken)

handle_kill-violations :
    (st : DaemonState) (reason : Text) (peer : Option ℕ)
    → (handle_kill st reason peer).1.violations ≡ st.violations
unfolding handle_kill
handle_kill-violations st reason peer = ground arith

-- A kill that the socket accepts is taken by the next iteration, where in between nothing but the
-- mode has changed, whether the daemon is armed or not and whatever the hardware and the
-- configuration file answer: the kill sequence runs exactly where the daemon enforces by then, in
-- either mode the newest entry of the history is the peer's kill, and no kill is left behind.
pub accepted_kill_runs :
    (w : Daemon) (i : Inputs) (reason : Text) (peer : Option ℕ) (mode : DaemonMode)
    → IsHistory w.state.violations
    → (handle_kill w.state reason peer).0.ok ≡ true
    → let st = record (handle_kill w.state reason peer).1 { mode = mode } in
      let (killed, after) = iterate (record w { state = st }) i in
      (killed ≡ enforces mode) × IsTaken reason after.state
accepted_kill_runs w i reason peer mode h ok =
    queued_kill-IsTaken
      (record w { state = record (handle_kill w.state reason peer).1 { mode = mode } }) i reason
      (rw (handle_kill-violations w.state reason peer) h)
      (unfold handle_kill ok_response err_response in ground arith)
