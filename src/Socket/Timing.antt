-- ===== src/Socket/Timing.antt =====
-- The invariant that every disarm ends: what each command does to the deadline.
use plugkill.Prelude.{
  ℕ, ◌+◌, ◌≤◌, ◌≡◌, ◌⊎◌, refl, Bool, true, false, Option, none, some, arith, eqb, ltb, inl, inr,
  Option-cases, Bool-cases, Text, from_secs, ◌∙◌,
}
use plugkill.Allowances.{device_ref_eq}
use plugkill.State.{DaemonState}
use plugkill.Ipc.{
  Request, disarm, arm_now, pair, allow_last, revoke, kill, Response, PeerCreds, Authorization,
}
use plugkill.Socket.{
  handle_disarm, handle_arm, handle_learn, handle_enforce, handle_reload, handle_pair,
  handle_allow_last, handle_revoke, revoke_id, handle_revoke_all, handle_kill, set_window, promote,
  promote_last,
}
use plugkill.Socket.Dispatch.{uid_of, authorize, dispatch, handle_request}

-- A disarmed daemon has a deadline, at most an hour away; an armed one has none.
abbrev pub IsTimed : ℕ → DaemonState → Type 0
IsTimed now st =
    ((st.armed ≡ true) × (st.disarm_until ≡ none))
    ⊎ ((st.armed ≡ false)
        × ((deadline : ℕ) × ((st.disarm_until ≡ some deadline)
              × (deadline ≤ now + from_secs 3600))))

-- The fields that only `disarm` and `arm` write.
abbrev KeepsTiming : DaemonState → DaemonState → Type 0
KeepsTiming old new = (new.armed ≡ old.armed) × (new.disarm_until ≡ old.disarm_until)

disarm-IsTimed :
    (st : DaemonState) (now n : ℕ) → IsTimed now st → IsTimed now (handle_disarm st now n).1
unfolding handle_disarm from_secs
disarm-IsTimed st now n h = elim (Bool-cases (eqb n 0)) [
  | inl e ↦ let same : (handle_disarm st now n).1 ≡ st = ground arith in rw same h
  | inr e ↦ elim (Bool-cases (ltb 3600 n)) [
    | inl f ↦ let same : (handle_disarm st now n).1 ≡ st = ground arith in rw same h
    | inr f ↦
        let same : (handle_disarm st now n).1
            ≡ record st { armed = false; disarm_until = some (now + from_secs n) } =
          ground arith in
        let le : n ≤ 3600 = ground arith in
        rw same (inr (refl, (now + from_secs n, (refl, omega arith))))
  ]
]

arm-IsTimed : (st : DaemonState) (now : ℕ) → IsTimed now (handle_arm st).1
unfolding handle_arm
arm-IsTimed st now = inl (ground arith, ground arith)

pair-keeps :
    (st : DaemonState) (now n : ℕ) (f : Option ℕ) → KeepsTiming st (handle_pair st now n f).1
unfolding handle_pair set_window
pair-keeps st now n f = (ground arith, ground arith)

allow_last-keeps :
    (st : DaemonState) (now : ℕ) (f : Option ℕ) (b : Bool)
    → KeepsTiming st (handle_allow_last st now f b).1
unfolding handle_allow_last promote_last promote
allow_last-keeps st now f b = (ground arith, ground arith)

revoke-keeps : (st : DaemonState) (s : Text) → KeepsTiming st (handle_revoke st s).1
unfolding handle_revoke revoke_id
revoke-keeps st s = (ground arith, ground arith)

kill-keeps : (st : DaemonState) (s : Text) (u : Option ℕ) → KeepsTiming st (handle_kill st s u).1
unfolding handle_kill
kill-keeps st s u = (ground arith, ground arith)

kept-IsTimed :
    (old new : DaemonState) (now : ℕ) → KeepsTiming old new → IsTimed now old → IsTimed now new
kept-IsTimed old new now (a, d) (inl h) = inl (a ∙ h.0, d ∙ h.1)
kept-IsTimed old new now (a, d) (inr (h, (t, (e, k)))) = inr (a ∙ h, (t, (d ∙ e, k)))

dispatch-IsTimed :
    (read : Request → DaemonState → Response) (has_identity : Bool) (st : DaemonState) (now : ℕ)
    (creds : Option PeerCreds) (req : Request)
    → IsTimed now st
    → IsTimed now (dispatch read has_identity st now creds req).1
unfolding dispatch handle_learn handle_enforce handle_reload handle_revoke_all
dispatch-IsTimed read has_identity st now creds (disarm n) h = disarm-IsTimed st now n h
dispatch-IsTimed read has_identity st now creds arm_now h = arm-IsTimed st now
dispatch-IsTimed read has_identity st now creds (pair n f) h =
    kept-IsTimed st (handle_pair st now n f).1 now (pair-keeps st now n f) h
dispatch-IsTimed read has_identity st now creds (allow_last f) h =
    kept-IsTimed st (handle_allow_last st now f has_identity).1 now
      (allow_last-keeps st now f has_identity) h
dispatch-IsTimed read has_identity st now creds (revoke s) h =
    kept-IsTimed st (handle_revoke st s).1 now (revoke-keeps st s) h
dispatch-IsTimed read has_identity st now creds (kill r) h =
    kept-IsTimed st (handle_kill st r (uid_of creds)).1 now (kill-keeps st r (uid_of creds)) h
dispatch-IsTimed read has_identity st now creds _ h = h

-- Whatever a client sends, and whatever the authority answers, an armed daemon has no deadline and
-- a disarmed one has a deadline at most an hour after the request: no request disarms for longer
-- or for good.
pub handle_request-IsTimed :
    (check : Text → ℕ → ℕ → Authorization) (read : Request → DaemonState → Response)
    (require_auth has_identity : Bool) (st : DaemonState) (before now : ℕ)
    (creds : Option PeerCreds) (req : Request)
    → before ≤ now
    → IsTimed before st
    → IsTimed now (handle_request check read require_auth has_identity st now creds req).1
handle_request-IsTimed check read require_auth has_identity st before now creds req l h =
    let later : IsTimed now st = elim h [
      | inl a ↦ inl a
      | inr (a, (t, (e, k))) ↦ inr (a, (t, (e, omega arith)))
    ] in
    elim (Option-cases (authorize check require_auth creds req)) [
      | inl e ↦
          let same : handle_request check read require_auth has_identity st now creds req
              ≡ dispatch read has_identity st now creds req =
            unfold handle_request in ground arith in
          rw same (dispatch-IsTimed read has_identity st now creds req later)
      | inr (r, e) ↦
          let same : handle_request check read require_auth has_identity st now creds req
              ≡ (r, st) =
            unfold handle_request in ground arith in
          rw same later
    ]
