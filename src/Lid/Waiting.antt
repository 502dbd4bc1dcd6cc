-- ===== src/Lid/Waiting.antt =====
-- Over any sequence of polls: when a lid violation fires.
use plugkill.Prelude.{
  ℕ, ◌+◌, ◌≤◌, ◌≡◌, ◌⊎◌, refl, arith, Bool, true, none, some, List, ◌∷◌, ltb, inl, inr, is_some,
  Bool-cases, Option-cases, from_secs,
}
use plugkill.Config.{Config, LidPolicy}
use plugkill.State.{DaemonState}
use plugkill.State.Waiting.{HasHeldSince, after, fires-HasHeldSince}
use plugkill.Lid.{LidState, opened, closed, unknown, is_closed, wait, check_lid}

-- One poll: the clock and the lid.
pub record LidPoll : Type 0 where
  pub at : ℕ
  pub lid : LidState

abbrev pub poll : Config → LidState → DaemonState → LidPoll → Bool × DaemonState
poll cfg base st p =
    let (fired, rest) = check_lid cfg (some base) p.lid st p.at in (is_some fired, rest.1)

wait-fires :
    (grace_secs : ℕ) (st : DaemonState) (now : ℕ)
    → is_some (wait grace_secs st now).0 ≡ true
    → (from_secs grace_secs ≡ 0)
      ⊎ ((t : ℕ) × ((st.lid_close_at ≡ some t) × (t + from_secs grace_secs ≤ now)))
unfolding wait from_secs
wait-fires grace_secs st now h = elim (Bool-cases (ltb 0 grace_secs)) [
  | inr e ↦ inl (ground arith)
  | inl e ↦ elim (Option-cases st.lid_close_at) [
    | inl n ↦ ground arith
    | inr (t, n) ↦ inr (t, (n, ground arith))
  ]
]

wait-kept :
    (grace_secs : ℕ) (st : DaemonState) (now t : ℕ)
    → (wait grace_secs st now).1.lid_close_at ≡ some t
    → (now ≡ t) ⊎ (st.lid_close_at ≡ some t)
unfolding wait from_secs
wait-kept grace_secs st now t h = ground arith

abbrev pub IsClosedPoll : LidPoll → Type 0
IsClosedPoll p = p.lid ≡ closed

is_closed_sound : (s : LidState) → is_closed s ≡ true → s ≡ closed
unfolding is_closed
is_closed_sound opened h = ground arith
is_closed_sound closed h = refl
is_closed_sound unknown h = ground arith

module _ (cfg : Config) (base : LidState) (w : cfg.general.watch_lid ≡ true)
    (a : cfg.lid.policy ≡ LidPolicy.kill) where
  poll-kept :
      (st : DaemonState) (p : LidPoll) (t : ℕ)
      → (poll cfg base st p).1.lid_close_at ≡ some t
      → IsClosedPoll p × ((p.at ≡ t) ⊎ (st.lid_close_at ≡ some t))
  unfolding check_lid
  poll-kept st p t h = elim (Bool-cases (is_closed p.lid)) [
    | inr e ↦ ground arith
    | inl e ↦ (
      is_closed_sound p.lid e,
      elim (Bool-cases (is_closed base)) [
        | inl b ↦ inr (ground arith)
        | inr b ↦ wait-kept cfg.lid.grace_secs st p.at t (ground arith)
      ],
    )
  ]

  poll-fires :
      (st : DaemonState) (p : LidPoll)
      → (poll cfg base st p).0 ≡ true
      → IsClosedPoll p
        × ((from_secs cfg.lid.grace_secs ≡ 0)
            ⊎ ((t : ℕ) × ((st.lid_close_at ≡ some t) × (t + from_secs cfg.lid.grace_secs ≤ p.at))))
  unfolding check_lid
  poll-fires st p h = elim (Bool-cases (is_closed p.lid)) [
    | inr e ↦ ground arith
    | inl e ↦ (
      is_closed_sound p.lid e,
      elim (Bool-cases (is_closed base)) [
        | inl b ↦ ground arith
        | inr b ↦ wait-fires cfg.lid.grace_secs st p.at (ground arith)
      ],
    )
  ]

  -- On a watched lid with a baseline, under the kill policy and from a state with no close time, a
  -- lid violation fires only when the lid has read closed at every poll of a stretch that starts at
  -- least the configured grace period ago: a lid that opens within the grace starts the wait again.
  pub lid_waits_grace :
      (st : DaemonState) (p : LidPoll) (earlier : List LidPoll)
      → st.lid_close_at ≡ none
      → (poll cfg base (after (poll cfg base) st earlier) p).0 ≡ true
      → (t : ℕ) × (HasHeldSince IsClosedPoll (λ q. q.at) t (p ∷ earlier)
          × (t + from_secs cfg.lid.grace_secs ≤ p.at))
  lid_waits_grace st p earlier n h =
      fires-HasHeldSince IsClosedPoll (λ q. q.at) (from_secs cfg.lid.grace_secs)
        (λ s. s.lid_close_at) (poll cfg base) poll-kept poll-fires st p earlier n h
