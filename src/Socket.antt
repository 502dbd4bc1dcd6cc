-- ===== src/Socket.antt =====
-- crates/plugkill/src/socket.rs: what each command of the control socket does to the shared state.
-- The clock is an argument; the journal lines have no counterpart.
pub mod Dispatch
pub mod Status
pub mod Permission
pub mod Timing
pub mod Effects
use plugkill.Prelude.{
  ℕ, ◌+◌, Bool, true, false, not, Option, none, some, [], ◌∷◌, ◌++◌, ltb, eqb, is_some,
  if◌then◌else◌, ◌==◌, nat_eq, option_eq, option_beq, from_secs, Text, codes, to_dec, Result, ok,
  err,
}
use plugkill.Allowances.{
  DeviceRef, promoted, new_allowance, with_name, add, remove, clear, selector,
}
use plugkill.Allowances.Selector.{from_str}
use plugkill.State.{enforce, learn, PairingWindow, DaemonState, last_violation, display_limit}
use plugkill.Ipc.{
  Response, Value, number, string, ok_response, err_response, message, format_duration,
}

unfoldable pub kill_authorized : Option ℕ → Bool
unfolding option_beq
kill_authorized peer_uid = peer_uid == some 0

abbrev pub max_disarm_secs : ℕ
max_disarm_secs = 3600

unfoldable pub handle_disarm : DaemonState → ℕ → ℕ → Response × DaemonState
unfolding ok_response err_response format_duration from_secs
handle_disarm st now timeout_secs =
    if eqb timeout_secs 0
    then (err_response (codes "timeout_secs must be > 0"), st)
    else if ltb max_disarm_secs timeout_secs
    then (err_response (codes "timeout_secs must be <= 3600 (1 hour)"), st)
    else (
      ok_response (
          message (codes "disarmed for " ++ format_duration timeout_secs)
          ∷ (codes "disarm_until_secs", number timeout_secs)
          ∷ []),
      record st { armed = false; disarm_until = some (now + from_secs timeout_secs) },
    )

unfoldable pub handle_arm : DaemonState → Response × DaemonState
unfolding ok_response
handle_arm st =
    if st.armed
    then (
      ok_response (message (codes "already armed") ∷ []),
      record st { armed = true; disarm_until = none },
    )
    else (
      ok_response (message (codes "armed (baselines will be re-captured on next poll)") ∷ []),
      record st { armed = true; disarm_until = none; rebaseline_pending = true },
    )

unfoldable pub handle_learn : DaemonState → Response × DaemonState
unfolding ok_response
handle_learn st =
    (ok_response (message (codes "switched to learning mode") ∷ []), record st { mode = learn })

unfoldable pub handle_enforce : DaemonState → Response × DaemonState
unfolding ok_response
handle_enforce st =
    (ok_response (message (codes "switched to enforce mode") ∷ []), record st { mode = enforce })

unfoldable pub handle_reload : DaemonState → Response × DaemonState
unfolding ok_response
handle_reload st =
    (ok_response (message (codes "reload scheduled") ∷ []), record st { reload_pending = true })

abbrev pub max_pair_secs : ℕ
max_pair_secs = 3600

-- `ttl`: the expiry that `--for` asks for, or the refusal.
unfoldable pub ttl : Option ℕ → Result (Option ℕ)
unfolding from_secs
ttl none = ok none
ttl (some secs) =
    if eqb secs 0 then err (codes "for_secs must be > 0") else ok (some (from_secs secs))

-- `handle_pair` behind its refusals.
unfoldable pub set_window : DaemonState → ℕ → ℕ → Option ℕ → Response × DaemonState
unfolding ok_response format_duration from_secs
set_window st now window_secs ttl =
    if eqb window_secs 0
    then (
      ok_response (
          message (
            if is_some st.pairing
            then codes "pairing window closed"
            else codes "no pairing window was open")
          ∷ (codes "window_secs", number 0)
          ∷ []),
      record st { pairing = none },
    )
    else (
      ok_response (
          message (codes "pairing window open for " ++ format_duration window_secs)
          ∷ (codes "window_secs", number window_secs)
          ∷ []),
      record st { pairing = some (record { until = now + from_secs window_secs; ttl = ttl }) },
    )

unfoldable pub handle_pair : DaemonState → ℕ → ℕ → Option ℕ → Response × DaemonState
unfolding set_window err_response ttl
handle_pair st now window_secs for_secs =
    if ltb max_pair_secs window_secs
    then (err_response (codes "window_secs must be <= 3600 (1 hour)"), st)
    else elim (ttl for_secs) [
      | err reason ↦ (err_response reason, st)
      | ok expiry ↦ set_window st now window_secs expiry
    ]

-- `handle_allow_last` with the violation's device at hand.
unfoldable pub promote :
    DaemonState → ℕ → Option ℕ → Bool → DeviceRef → Option Text → Response × DaemonState
unfolding display_limit err_response ok_response
promote st now ttl has_identity id name = elim (display_limit id has_identity) [
  | some refusal ↦ (err_response refusal, st)
  | none ↦ (
    ok_response
        (message (codes "allowed " ++ selector id) ∷ (codes "selector", string (selector id)) ∷ []),
    record st {
      allowances = (add st.allowances (with_name (new_allowance id promoted now ttl) name)).1;
    },
  )
]

-- `handle_allow_last` behind the refusal of `ttl`.
unfoldable pub promote_last : DaemonState → ℕ → Option ℕ → Bool → Response × DaemonState
unfolding last_violation promote err_response
promote_last st now ttl has_identity = elim (last_violation st) [
  | none ↦ (err_response (codes "no violation has been recorded, so there is nothing to allow"), st)
  | some last ↦ elim last.id [
    | none ↦ (
      err_response (
          codes "the last violation names no device, so there is nothing to allow: "
          ++ last.description),
      st,
    )
    | some id ↦ promote st now ttl has_identity id last.name
  ]
]

unfoldable pub handle_allow_last : DaemonState → ℕ → Option ℕ → Bool → Response × DaemonState
unfolding promote_last err_response ttl
handle_allow_last st now for_secs has_identity = elim (ttl for_secs) [
  | err reason ↦ (err_response reason, st)
  | ok expiry ↦ promote_last st now expiry has_identity
]

-- `handle_revoke` with the selector parsed.
unfoldable pub revoke_id : DaemonState → DeviceRef → Response × DaemonState
unfolding err_response ok_response
revoke_id st id = elim (remove st.allowances id).0 [
  | none ↦ (
    err_response (codes "no allowance for " ++ selector id),
    record st { allowances = (remove st.allowances id).1 },
  )
  | some gone ↦ (
    ok_response (
        message (codes "revoked " ++ selector gone.id)
        ∷ (codes "selector", string (selector gone.id))
        ∷ []),
    record st { allowances = (remove st.allowances id).1 },
  )
]

unfoldable pub handle_revoke : DaemonState → Text → Response × DaemonState
unfolding revoke_id err_response
handle_revoke st s = elim (from_str s) [
  | err reason ↦ (err_response reason, st)
  | ok id ↦ revoke_id st id
]

unfoldable pub handle_revoke_all : DaemonState → Response × DaemonState
unfolding ok_response clear
handle_revoke_all st =
    let (count, table) = clear st.allowances in
    (
      ok_response (
          message (codes "revoked " ++ (to_dec count ++ codes " allowance(s)"))
          ∷ (codes "revoked", number count)
          ∷ []),
      record st { allowances = table },
    )

unfoldable pub handle_kill : DaemonState → Text → Option ℕ → Response × DaemonState
unfolding kill_authorized err_response ok_response
handle_kill st reason peer_uid =
    if not (kill_authorized peer_uid)
    then (err_response (codes "kill requires root"), st)
    else elim st.mode [
      | learn ↦ (
        err_response (codes "daemon in learn mode, refusing remote kill"),
        record st { violations_logged = st.violations_logged + 1 },
      )
      | enforce ↦ (
        ok_response (message (codes "kill sequence scheduled") ∷ []),
        record st { kill_pending = some reason },
      )
    ]
