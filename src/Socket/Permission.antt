-- ===== src/Socket/Permission.antt =====
-- Who may change what through the control socket.
use plugkill.Prelude.{
  ℕ, zero, suc, ◌≡◌, ◌≢◌, ◌⊎◌, refl, Bool, true, false, Option, none, some, arith, is_some, inl,
  inr, Option-cases, Bool-cases, Result-cases, Text,
}
use plugkill.Allowances.{DeviceRef, AllowanceTable, remove, clear}
use plugkill.Allowances.Table.{IsTable, entry, find_entry, entry-remove}
use plugkill.Allowances.Selector.{from_str}
use plugkill.State.{DaemonState, enforce}
use plugkill.Ipc.{
  Request, status, devices, violations, disarm, arm_now, learn_mode, enforce_mode, reload, pair,
  allow_last, revoke, revoke_all, kill, Response, PeerCreds, Authorization, allowed, action_disarm,
  action_learn, action_reload, action_allow,
}
use plugkill.Socket.{
  kill_authorized, handle_arm, handle_enforce, handle_pair, handle_revoke, revoke_id,
  handle_revoke_all, handle_kill, set_window, ttl,
}
use plugkill.Socket.Dispatch.{uid_of, ask, gated_action, authorize, dispatch, handle_request}

-- The state `new` permits nothing that `old` does not: it is armed and enforcing if `old` is, holds
-- no other allowance, no other pairing window and no other order, and keeps an armed daemon's baselines.
abbrev pub IsNoLooser : DaemonState → DaemonState → Type 0
IsNoLooser old new =
    (old.armed ≡ true → new.armed ≡ true)
    × ((new.mode ≡ old.mode) ⊎ (new.mode ≡ enforce))
    × ((j : DeviceRef)
        → (entry new.allowances j ≡ none) ⊎ (entry new.allowances j ≡ entry old.allowances j))
    × ((new.pairing ≡ none) ⊎ (new.pairing ≡ old.pairing))
    × (new.kill_pending ≡ old.kill_pending)
    × (new.reload_pending ≡ old.reload_pending)
    × (old.armed ≡ true → new.rebaseline_pending ≡ old.rebaseline_pending)

IsNoLooser-self : (st : DaemonState) → IsNoLooser st st
IsNoLooser-self st = (λ h. h, inl refl, λ j. inr refl, inr refl, refl, refl, λ h. refl)

-- Any change of the allowances that only takes some away.
fewer-IsNoLooser :
    (st : DaemonState) (t : AllowanceTable)
    → ((j : DeviceRef) → (entry t j ≡ none) ⊎ (entry t j ≡ entry st.allowances j))
    → IsNoLooser st (record st { allowances = t })
fewer-IsNoLooser st t h = (λ h. h, inl refl, h, inr refl, refl, refl, λ h. refl)

arm-IsNoLooser : (st : DaemonState) → IsNoLooser st (handle_arm st).1
unfolding handle_arm
arm-IsNoLooser st = elim (Bool-cases st.armed) [
  | inl e ↦ rw e (λ h. refl, inl refl, λ j. inr refl, inr refl, refl, refl, λ h. refl)
  | inr e ↦ rw e (λ h. refl, inl refl, λ j. inr refl, inr refl, refl, refl, λ h. ground arith)
]

revoke_id_state :
    (st : DaemonState) (id : DeviceRef)
    → (revoke_id st id).1 ≡ record st { allowances = (remove st.allowances id).1 }
unfolding revoke_id
revoke_id_state st id = ground arith

revoke-IsNoLooser :
    (st : DaemonState) (s : Text) → IsTable st.allowances → IsNoLooser st (handle_revoke st s).1
unfolding handle_revoke
revoke-IsNoLooser st s v = elim (Result-cases (from_str s)) [
  | inl (reason, e) ↦
      let same : (handle_revoke st s).1 ≡ st = ground arith in rw same (IsNoLooser-self st)
  | inr (id, e) ↦
      let same : (handle_revoke st s).1 ≡ (revoke_id st id).1 = ground arith in
      rw (same, revoke_id_state st id)
        (fewer-IsNoLooser st (remove st.allowances id).1
          (λ j. ground (arith, (entry-remove st.allowances v id).2 j)))
]

-- `pair 0` only closes a window.
pair_close-IsNoLooser :
    (st : DaemonState) (now : ℕ) (f : Option ℕ) → IsNoLooser st (handle_pair st now 0 f).1
unfolding handle_pair set_window
pair_close-IsNoLooser st now f = elim (Result-cases (ttl f)) [
  | inl (reason, e) ↦
      let same : (handle_pair st now 0 f).1 ≡ st = ground arith in rw same (IsNoLooser-self st)
  | inr (t, e) ↦
      let same : (handle_pair st now 0 f).1 ≡ record st { pairing = none } = ground arith in
      rw same (λ h. h, inl refl, λ j. inr refl, inl refl, refl, refl, λ h. refl)
]

revoke_all-IsNoLooser : (st : DaemonState) → IsNoLooser st (handle_revoke_all st).1
unfolding handle_revoke_all clear find_entry
revoke_all-IsNoLooser st = fewer-IsNoLooser st (clear st.allowances).1 (λ j. inl refl)

-- What the kernel says of a peer that the authority does not let through.
abbrev pub IsRefused : (Text → ℕ → ℕ → Authorization) → Option PeerCreds → Type 0
IsRefused check creds =
    (kill_authorized (uid_of creds) ≡ false)
    × ((c : PeerCreds) (pid : ℕ) (action : Text)
        → creds ≡ some c
        → c.pid ≡ some pid
        → check action c.uid pid ≢ allowed)

ask-refuses :
    (check : Text → ℕ → ℕ → Authorization) (action : Text) (creds : Option PeerCreds)
    → IsRefused check creds
    → is_some (ask check action creds) ≡ true
unfolding ask
ask-refuses check action none r = refl
ask-refuses check action (some c) (u, r) = elim (Option-cases c.pid) [
  | inl e ↦ ground arith
  | inr (pid, e) ↦ ground (arith, r c pid action refl e)
]

module _ (check : Text → ℕ → ℕ → Authorization) (read : Request → DaemonState → Response)
    (has_identity : Bool) (st : DaemonState) (now : ℕ) (creds : Option PeerCreds) where
  gated_unchanged :
      (req : Request) (action : Text)
      → gated_action req ≡ some action
      → IsRefused check creds
      → (handle_request check read true has_identity st now creds req).1 ≡ st
  unfolding handle_request authorize
  gated_unchanged req action g r = ground (arith, ask-refuses check action creds r, r.0)

-- With `require_auth` set, a peer that is not root and that the authority refuses cannot loosen the
-- daemon by any request: it stays armed and enforcing if it was, gains no allowance, no pairing
-- window, no pending kill and no pending reload, and is not told to capture its baselines again
-- while it is armed.
pub refused_loosens_nothing :
    (check : Text → ℕ → ℕ → Authorization) (read : Request → DaemonState → Response)
    (has_identity : Bool) (st : DaemonState) (now : ℕ) (creds : Option PeerCreds) (req : Request)
    → IsTable st.allowances
    → IsRefused check creds
    → IsNoLooser st (handle_request check read true has_identity st now creds req).1
unfolding handle_request authorize dispatch gated_action handle_enforce handle_kill handle_pair
    set_window
refused_loosens_nothing check read has_identity st now creds status v r = IsNoLooser-self st
refused_loosens_nothing check read has_identity st now creds devices v r = IsNoLooser-self st
refused_loosens_nothing check read has_identity st now creds violations v r = IsNoLooser-self st
refused_loosens_nothing check read has_identity st now creds (disarm n) v r =
    rw (gated_unchanged check read has_identity st now creds (disarm n) action_disarm refl r)
      (IsNoLooser-self st)
refused_loosens_nothing check read has_identity st now creds arm_now v r = arm-IsNoLooser st
refused_loosens_nothing check read has_identity st now creds learn_mode v r =
    rw (gated_unchanged check read has_identity st now creds learn_mode action_learn refl r)
      (IsNoLooser-self st)
refused_loosens_nothing check read has_identity st now creds enforce_mode v r =
    (λ h. h, inr refl, λ j. inr refl, inr refl, refl, refl, λ h. refl)
refused_loosens_nothing check read has_identity st now creds reload v r =
    rw (gated_unchanged check read has_identity st now creds reload action_reload refl r)
      (IsNoLooser-self st)
refused_loosens_nothing check read has_identity st now creds (pair zero f) v r =
    pair_close-IsNoLooser st now f
refused_loosens_nothing check read has_identity st now creds (pair (suc n) f) v r =
    rw
      (gated_unchanged check read has_identity st now creds (pair (suc n) f) action_allow
        (ground arith) r)
      (IsNoLooser-self st)
refused_loosens_nothing check read has_identity st now creds (allow_last f) v r =
    rw (gated_unchanged check read has_identity st now creds (allow_last f) action_allow refl r)
      (IsNoLooser-self st)
refused_loosens_nothing check read has_identity st now creds (revoke s) v r =
    revoke-IsNoLooser st s v
refused_loosens_nothing check read has_identity st now creds revoke_all v r =
    revoke_all-IsNoLooser st
refused_loosens_nothing check read has_identity st now creds (kill reason) v r =
    rw r.0 (IsNoLooser-self st)
