-- ===== src/Socket/Dispatch.antt =====
-- crates/plugkill/src/socket.rs: which commands ask the authority, and the dispatch of a request.
use plugkill.Prelude.{ℕ, Bool, not, Option, none, some, ◌++◌, eqb, if◌then◌else◌, Text, codes}
use plugkill.State.{DaemonState}
use plugkill.Ipc.{
  Request, disarm, arm_now, learn_mode, enforce_mode, reload, pair, allow_last, revoke, revoke_all,
  kill, Response, err_response, PeerCreds, Authorization, allowed, refused, action_disarm,
  action_learn, action_reload, action_allow,
}
use plugkill.Socket.{
  kill_authorized, handle_disarm, handle_arm, handle_learn, handle_enforce, handle_reload,
  handle_pair, handle_allow_last, handle_revoke, handle_revoke_all, handle_kill,
}

unfoldable pub gated_action : Request → Option Text
gated_action (disarm timeout_secs) = some action_disarm
gated_action learn_mode = some action_learn
gated_action reload = some action_reload
gated_action (pair window_secs for_secs) = if eqb window_secs 0 then none else some action_allow
gated_action (allow_last for_secs) = some action_allow
gated_action _ = none

abbrev pub uid_of : Option PeerCreds → Option ℕ
uid_of none = none
uid_of (some c) = some c.uid

abbrev pub auth_required : Text → Response
auth_required reason = err_response (codes "authentication required: " ++ reason)

-- What the authority answers for a peer that is not root.
unfoldable pub ask : (Text → ℕ → ℕ → Authorization) → Text → Option PeerCreds → Option Response
unfolding err_response
ask check action none = some (auth_required (codes "the caller cannot be identified"))
ask check action (some c) = elim c.pid [
  | none ↦ some (auth_required (codes "the caller cannot be identified"))
  | some pid ↦ elim (check action c.uid pid) [
    | allowed ↦ none
    | refused reason ↦ some (auth_required reason)
  ]
]

-- `check` is `Authority::check`, which asks polkit.
unfoldable pub authorize :
    (Text → ℕ → ℕ → Authorization) → Bool → Option PeerCreds → Request → Option Response
unfolding gated_action ask kill_authorized
authorize check require_auth creds req = elim (gated_action req) [
  | none ↦ none
  | some action ↦
      if not require_auth
      then none
      else if kill_authorized (uid_of creds)
      then none
      else ask check action creds
]

-- The dispatch of an authorized request. `read` answers the three commands that only read:
-- `handle_status`, `handle_devices` and `handle_violations`.
unfoldable pub dispatch :
    (Request → DaemonState → Response)
    → Bool
    → DaemonState
    → ℕ
    → Option PeerCreds
    → Request
    → Response × DaemonState
unfolding handle_disarm handle_arm handle_learn handle_enforce handle_reload handle_pair
    handle_allow_last handle_revoke handle_revoke_all handle_kill
dispatch read has_identity st now creds (disarm timeout_secs) = handle_disarm st now timeout_secs
dispatch read has_identity st now creds arm_now = handle_arm st
dispatch read has_identity st now creds learn_mode = handle_learn st
dispatch read has_identity st now creds enforce_mode = handle_enforce st
dispatch read has_identity st now creds reload = handle_reload st
dispatch read has_identity st now creds (pair window_secs for_secs) =
    handle_pair st now window_secs for_secs
dispatch read has_identity st now creds (allow_last for_secs) =
    handle_allow_last st now for_secs has_identity
dispatch read has_identity st now creds (revoke s) = handle_revoke st s
dispatch read has_identity st now creds revoke_all = handle_revoke_all st
dispatch read has_identity st now creds (kill reason) = handle_kill st reason (uid_of creds)
dispatch read has_identity st now creds req = (read req st, st)

-- `handle_request`, under the configuration's `require_auth`
unfoldable pub handle_request :
    (Text → ℕ → ℕ → Authorization)
    → (Request → DaemonState → Response)
    → Bool
    → Bool
    → DaemonState
    → ℕ
    → Option PeerCreds
    → Request
    → Response × DaemonState
unfolding authorize dispatch
handle_request check read require_auth has_identity st now creds req =
    elim (authorize check require_auth creds req) [
      | some refusal ↦ (refusal, st)
      | none ↦ dispatch read has_identity st now creds req
    ]
