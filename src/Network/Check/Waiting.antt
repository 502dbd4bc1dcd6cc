-- ===== src/Network/Check/Waiting.antt =====
-- Over any sequence of polls: when a network violation fires.
use plugkill.Prelude.{
  ℕ, ◌+◌, ◌≤◌, ◌≡◌, ◌≢◌, ◌⊎◌, arith, Bool, true, none, some, List, ◌∷◌, ltb, inl, inr, is_some,
  Bool-cases, Option-cases, from_secs,
}
use plugkill.Config.{Config, NetworkPolicy}
use plugkill.State.{DaemonState}
use plugkill.State.Waiting.{HasHeldSince, after, fires-HasHeldSince}
use plugkill.Network.{NetworkSnapshot, NetworkChange, detect_link_down}
use plugkill.Network.Check.{wait, check_network}

-- One poll: the clock and the links.
pub record NetworkPoll : Type 0 where
  pub at : ℕ
  pub links : NetworkSnapshot

abbrev pub poll : Config → NetworkSnapshot → DaemonState → NetworkPoll → Bool × DaemonState
poll cfg base st p =
    let (fired, rest) = check_network cfg (some base) p.links st p.at in (is_some fired, rest.1)

-- Some link that was up in the baseline is down or gone.
abbrev pub IsCut : NetworkSnapshot → NetworkPoll → Type 0
IsCut base p = detect_link_down p.links base ≢ none

wait-fires :
    (change : NetworkChange) (grace_secs : ℕ) (st : DaemonState) (now : ℕ)
    → is_some (wait change grace_secs st now).0 ≡ true
    → (from_secs grace_secs ≡ 0)
      ⊎ ((t : ℕ) × ((st.network_link_down_at ≡ some t) × (t + from_secs grace_secs ≤ now)))
unfolding wait from_secs
wait-fires change grace_secs st now h = elim (Bool-cases (ltb 0 grace_secs)) [
  | inr e ↦ inl (ground arith)
  | inl e ↦ elim (Option-cases st.network_link_down_at) [
    | inl n ↦ ground arith
    | inr (t, n) ↦ inr (t, (n, ground arith))
  ]
]

wait-kept :
    (change : NetworkChange) (grace_secs : ℕ) (st : DaemonState) (now t : ℕ)
    → (wait change grace_secs st now).1.network_link_down_at ≡ some t
    → (now ≡ t) ⊎ (st.network_link_down_at ≡ some t)
unfolding wait from_secs
wait-kept change grace_secs st now t h = ground arith

module _ (cfg : Config) (base : NetworkSnapshot) (w : cfg.general.watch_network ≡ true)
    (a : cfg.network.policy ≡ NetworkPolicy.kill) where
  poll-kept :
      (st : DaemonState) (p : NetworkPoll) (t : ℕ)
      → (poll cfg base st p).1.network_link_down_at ≡ some t
      → IsCut base p × ((p.at ≡ t) ⊎ (st.network_link_down_at ≡ some t))
  unfolding check_network
  poll-kept st p t h = elim (Option-cases (detect_link_down p.links base)) [
    | inl e ↦ ground arith
    | inr (change, e) ↦
        (λ n. ground arith, wait-kept change cfg.network.grace_secs st p.at t (ground arith))
  ]

  poll-fires :
      (st : DaemonState) (p : NetworkPoll)
      → (poll cfg base st p).0 ≡ true
      → IsCut base p
        × ((from_secs cfg.network.grace_secs ≡ 0)
            ⊎ ((t : ℕ) × ((st.network_link_down_at ≡ some t)
                  × (t + from_secs cfg.network.grace_secs ≤ p.at))))
  unfolding check_network
  poll-fires st p h = elim (Option-cases (detect_link_down p.links base)) [
    | inl e ↦ ground arith
    | inr (change, e) ↦
        (λ n. ground arith, wait-fires change cfg.network.grace_secs st p.at (ground arith))
  ]

  -- On a watched network with a baseline, under the kill policy and from a state with no time of
  -- loss, a network violation fires only when at every poll of a stretch that starts at least the
  -- configured grace period ago some link of the baseline has read down or gone: a poll that finds
  -- them all up starts the wait again.
  pub network_waits_grace :
      (st : DaemonState) (p : NetworkPoll) (earlier : List NetworkPoll)
      → st.network_link_down_at ≡ none
      → (poll cfg base (after (poll cfg base) st earlier) p).0 ≡ true
      → (t : ℕ) × (HasHeldSince (IsCut base) (λ q. q.at) t (p ∷ earlier)
          × (t + from_secs cfg.network.grace_secs ≤ p.at))
  network_waits_grace st p earlier n h =
      fires-HasHeldSince (IsCut base) (λ q. q.at) (from_secs cfg.network.grace_secs)
        (λ s. s.network_link_down_at) (poll cfg base) poll-kept poll-fires st p earlier n h
