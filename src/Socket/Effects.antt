-- ===== src/Socket/Effects.antt =====
-- What the commands that queue a kill, revoke or allow do.
use plugkill.Prelude.{
  ℕ, ◌≡◌, refl, Bool, true, false, Option, none, some, List, [], ◌∷◌, arith, is_some, inl, inr,
  if◌then◌else◌, Option-cases, Bool-cases, Text, ok, ◌==◌, option_beq, ==_congr,
}
use plugkill.Allowances.{
  DeviceRef, usb, thunderbolt, sd_card, pci, display, device_ref_beq, device_ref_eq, Allowance,
  promoted, new_allowance, with_name, add,
}
use plugkill.Allowances.Table.{IsTable, entry, entry-add, entry-remove}
use plugkill.Allowances.Selector.{from_str}
use plugkill.State.{
  DaemonState, enforce, learn, Violation, record_violation, record_in, push_violation, same_event,
  last_violation, display_limit,
}
use plugkill.Ipc.{
  Request, status, devices, violations, disarm, arm_now, learn_mode, enforce_mode, reload, pair,
  allow_last, revoke, revoke_all, kill, Response, PeerCreds, Authorization, ok_response,
  err_response,
}
use plugkill.Socket.{
  kill_authorized, handle_disarm, handle_arm, handle_learn, handle_enforce, handle_reload,
  handle_pair, handle_allow_last, handle_revoke, revoke_id, handle_revoke_all, handle_kill,
  set_window, promote, promote_last, ttl,
}
use plugkill.Socket.Dispatch.{uid_of, gated_action, authorize, dispatch, handle_request}

-- What stands in `kill_pending` after a request.
abbrev pub queued_kill : DaemonState → Option PeerCreds → Request → Option Text
queued_kill st creds (kill reason) = elim st.mode [
  | enforce ↦ if kill_authorized (uid_of creds) then some reason else st.kill_pending
  | learn ↦ st.kill_pending
]
queued_kill st creds _ = st.kill_pending

-- Only a `kill` from root to an enforcing daemon queues a kill, with its reason; every other
-- request, from anyone, leaves the queued kill as it was.
pub queued_only_by_root :
    (check : Text → ℕ → ℕ → Authorization) (read : Request → DaemonState → Response)
    (require_auth has_identity : Bool) (st : DaemonState) (now : ℕ) (creds : Option PeerCreds)
    (req : Request)
    → (handle_request check read require_auth has_identity st now creds req).1.kill_pending
      ≡ queued_kill st creds req
unfolding handle_request authorize gated_action dispatch handle_disarm handle_arm handle_learn
    handle_enforce handle_reload handle_pair set_window handle_allow_last promote_last promote
    handle_revoke revoke_id handle_revoke_all handle_kill
queued_only_by_root check read require_auth has_identity st now creds status = refl
queued_only_by_root check read require_auth has_identity st now creds devices = refl
queued_only_by_root check read require_auth has_identity st now creds violations = refl
queued_only_by_root check read require_auth has_identity st now creds (disarm n) = ground arith
queued_only_by_root check read require_auth has_identity st now creds arm_now = ground arith
queued_only_by_root check read require_auth has_identity st now creds learn_mode = ground arith
queued_only_by_root check read require_auth has_identity st now creds enforce_mode = refl
queued_only_by_root check read require_auth has_identity st now creds reload = ground arith
queued_only_by_root check read require_auth has_identity st now creds (pair n f) = ground arith
queued_only_by_root check read require_auth has_identity st now creds (allow_last f) = ground arith
queued_only_by_root check read require_auth has_identity st now creds (revoke s) = ground arith
queued_only_by_root check read require_auth has_identity st now creds revoke_all = refl
queued_only_by_root check read require_auth has_identity st now creds (kill reason) = ground arith

-- Revoking by a selector that parses takes that device's allowance away and no other, and the reply
-- is a success exactly when there was one.
revoke_removes :
    (st : DaemonState) (s : Text) (id : DeviceRef)
    → IsTable st.allowances
    → from_str s ≡ ok id
    → let (reply, st') = handle_revoke st s in
      ((j : DeviceRef) → entry st'.allowances j ≡ (if id == j then none else entry st.allowances j))
      × (reply.ok ≡ is_some (entry st.allowances id))
unfolding handle_revoke revoke_id ok_response err_response
revoke_removes st s id v e =
    let r = entry-remove st.allowances v id in (λ j. ground (arith, r.2 j), ground (arith, r.1))

abbrev newest : List (ℕ × Violation) → Option Violation
newest [] = none
newest (head ∷ rest) = some head.1

-- The head of the history names the recorded device, whether the violation is new or a repeat.
last_after_in :
    (history : List (ℕ × Violation)) (at : ℕ) (v : Violation) (id : DeviceRef)
    → v.id ≡ some id
    → (w : Violation) × ((id' : DeviceRef) × ((newest (record_in at v history) ≡ some w)
          × ((w.id ≡ some id') × (id' == id ≡ true))))
unfolding record_in push_violation same_event option_beq
last_after_in [] at v id i = (v, (id, (refl, (i, device_ref_eq.eq_refl id))))
last_after_in ((t, head) ∷ rest) at v id i = elim (Bool-cases (same_event head v)) [
  | inr f ↦ (v, (id, (ground arith, (i, device_ref_eq.eq_refl id))))
  | inl f ↦ elim (Option-cases head.id) [
    | inl n ↦ ground arith
    | inr (hid, n) ↦ (head, (hid, (ground arith, (n, ground arith))))
  ]
]

last_after :
    (st : DaemonState) (at : ℕ) (v : Violation) (id : DeviceRef)
    → v.id ≡ some id
    → (w : Violation) × ((id' : DeviceRef) × ((last_violation (record_violation st at v) ≡ some w)
          × ((w.id ≡ some id') × (id' == id ≡ true))))
unfolding record_violation last_violation
last_after st at v id i = last_after_in st.violations at v id i

display_limit_congr :
    (a b : DeviceRef) (has_identity : Bool)
    → a == b ≡ true
    → display_limit a has_identity ≡ display_limit b has_identity
unfolding display_limit device_ref_beq
display_limit_congr (display a) (display b) has_identity h = refl
display_limit_congr (usb a) (usb b) has_identity h = refl
display_limit_congr (thunderbolt a) (thunderbolt b) has_identity h = refl
display_limit_congr (sd_card a) (sd_card b) has_identity h = refl
display_limit_congr (pci a) (pci b) has_identity h = refl
display_limit_congr _ _ has_identity h = ground arith

-- After a violation that names a device, `allow_last` gives that device an allowance, where the
-- expiry asked for is a proper one and the platform can identify the device; it leaves every other
-- device's allowance as it was.
allow_last_promotes :
    (st : DaemonState) (at now : ℕ) (v : Violation) (id : DeviceRef) (for_secs expiry : Option ℕ)
    (has_identity : Bool)
    → IsTable st.allowances
    → v.id ≡ some id
    → ttl for_secs ≡ ok expiry
    → display_limit id has_identity ≡ none
    → let (reply, st') = handle_allow_last (record_violation st at v) now for_secs has_identity in
      (reply.ok ≡ true)
      × ((j : DeviceRef)
          → (id == j ≡ false → entry st'.allowances j ≡ entry st.allowances j)
            × (id == j ≡ true
                → (a : Allowance) × ((entry st'.allowances j ≡ some a)
                    × (a.expires_at ≡ (new_allowance id promoted now expiry).expires_at))))
allow_last_promotes st at now v id for_secs expiry has_identity t i e d =
    let (w, (id', (l, (k, q)))) = last_after st at v id i in
    let a = with_name (new_allowance id' promoted now expiry) w.name in
    let st1 = record_violation st at v in
    let same : (handle_allow_last st1 now for_secs has_identity).1
        ≡ record st1 { allowances = (add st.allowances a).1 } =
      unfold handle_allow_last promote_last promote record_violation in
      ground (arith, display_limit_congr id' id has_identity q) in
    let said : (handle_allow_last st1 now for_secs has_identity).0.ok ≡ true =
      unfold handle_allow_last promote_last promote ok_response in
      ground (arith, display_limit_congr id' id has_identity q) in
    let put = (entry-add st.allowances t a).2 in
    let moved = λ (j : DeviceRef). ==_congr id' id j q in
    unfold with_name new_allowance record_violation in
    rw same (
      said,
      λ j. (
        λ f. ground (arith, put j, moved j, f),
        λ f. (a, (ground (arith, put j, moved j, f), refl)),
      ),
    )
