-- ===== src/Power/Waiting.antt =====
-- Over any sequence of polls: when a power violation fires, and how often.
use plugkill.Prelude.{
  ℕ, ◌+◌, ◌≤◌, ◌≡◌, ◌≢◌, ◌⊎◌, refl, Bool, true, Option, none, some, List, [], ◌∷◌, arith, ltb, inl,
  inr, is_some, Bool-cases, Option-cases, from_secs, Text,
}
use plugkill.Config.{Config, PowerPolicy, trigger_once, ac_required, monitor}
use plugkill.State.{DaemonState}
use plugkill.Power.{
  PowerState, ac, battery, unknown, is_battery, is_trigger_once, fire, wait, on_battery, acting,
  check_power,
}

-- One poll: the clock, the supply, and what is known of the lock.
pub record PowerPoll : Type 0 where
  pub at : ℕ
  pub supply : PowerState
  pub locked : Option Bool

abbrev pub poll :
    Config
    → Option PowerState
    → DaemonState
    → PowerPoll
    → Option Text × (Option PowerState × DaemonState)
poll cfg baseline st p = check_power cfg baseline p.supply p.locked st p.at

-- The state after polls, the newest first.
abbrev pub run : Config → Option PowerState → DaemonState → List PowerPoll → DaemonState
run cfg baseline st [] = st
run cfg baseline st (p ∷ earlier) = (poll cfg baseline (run cfg baseline st earlier) p).1.1

-- The supply read battery at time `t` and at every poll since.
abbrev pub IsOut : ℕ → List PowerPoll → Type 0
IsOut t [] = ⊥
IsOut t (p ∷ earlier) = (p.supply ≡ battery) × ((p.at ≡ t) ⊎ IsOut t earlier)

is_battery_sound : (s : PowerState) → is_battery s ≡ true → s ≡ battery
unfolding is_battery
is_battery_sound ac h = ground arith
is_battery_sound battery h = refl
is_battery_sound unknown h = ground arith

acting_policy : (p : PowerPolicy) → p ≢ monitor → (p ≡ trigger_once) ⊎ (p ≡ ac_required)
acting_policy trigger_once n = inl refl
acting_policy ac_required n = inr refl
acting_policy monitor n = absurd (n refl)

-- Where the recorded unplug time comes from.
acting-unplug :
    (cfg : Config) (base current : PowerState) (locked : Option Bool) (st : DaemonState) (now t : ℕ)
    → (acting cfg base current locked st now).1.power_unplug_at ≡ some t
    → (is_battery current ≡ true) × ((now ≡ t) ⊎ (st.power_unplug_at ≡ some t))
unfolding acting on_battery wait fire
acting-unplug cfg base current locked st now t h = (ground arith, ground arith)

-- What a violation needs: battery, and an unplug time that lies the grace period back.
acting-fires :
    (cfg : Config) (base current : PowerState) (locked : Option Bool) (st : DaemonState) (now : ℕ)
    → is_some (acting cfg base current locked st now).0 ≡ true
    → (is_battery current ≡ true)
      × ((from_secs cfg.power.grace_secs ≡ 0)
          ⊎ ((t : ℕ) × ((st.power_unplug_at ≡ some t)
                × (t + from_secs cfg.power.grace_secs ≤ now))))
unfolding acting on_battery wait fire from_secs
acting-fires cfg base current locked st now h = (
  ground arith,
  elim (Bool-cases (ltb 0 cfg.power.grace_secs)) [
    | inr e ↦ inl (ground arith)
    | inl e ↦ elim (Option-cases st.power_unplug_at) [
      | inl n ↦ ground arith
      | inr (t, n) ↦ inr (t, (n, ground arith))
    ]
  ],
)

module _ (cfg : Config) (base : PowerState) (w : cfg.general.watch_power ≡ true)
    (a : cfg.power.policy ≢ monitor) where
  check-acting :
      (current : PowerState) (locked : Option Bool) (st : DaemonState) (now : ℕ)
      → check_power cfg (some base) current locked st now ≡ (
        (acting cfg base current locked st now).0,
        (some base, (acting cfg base current locked st now).1),
      )
  unfolding check_power
  check-acting current locked st now = elim (acting_policy cfg.power.policy a) [
    | inl e ↦ ground arith
    | inr e ↦ ground arith
  ]

  unplug-IsOut :
      (st : DaemonState) (polls : List PowerPoll) (t : ℕ)
      → st.power_unplug_at ≡ none
      → (run cfg (some base) st polls).power_unplug_at ≡ some t
      → IsOut t polls
  unplug-IsOut st [] t n h = ground arith
  unplug-IsOut st (p ∷ earlier) t n h =
      let old = run cfg (some base) st earlier in
      let moved : (acting cfg base p.supply p.locked old p.at).1.power_unplug_at ≡ some t =
        ground (arith, check-acting p.supply p.locked old p.at) in
      let (b, c) = acting-unplug cfg base p.supply p.locked old p.at t moved in
      (
        is_battery_sound p.supply b,
        elim c [ inl e ↦ inl e | inr e ↦ inr (unplug-IsOut st earlier t n e) ],
      )

  -- On a watched supply with a baseline, under a policy that acts and from a state with no unplug
  -- time, a power violation fires only when the supply has read battery at every poll of a stretch
  -- that starts at least the configured grace period ago: a supply that comes back within the grace
  -- starts the wait again.
  pub power_waits_grace :
      (st : DaemonState) (p : PowerPoll) (earlier : List PowerPoll)
      → st.power_unplug_at ≡ none
      → is_some (poll cfg (some base) (run cfg (some base) st earlier) p).0 ≡ true
      → (t : ℕ) × (IsOut t (p ∷ earlier) × (t + from_secs cfg.power.grace_secs ≤ p.at))
  power_waits_grace st p earlier n h =
      let old = run cfg (some base) st earlier in
      let fired : is_some (acting cfg base p.supply p.locked old p.at).0 ≡ true =
        ground (arith, check-acting p.supply p.locked old p.at) in
      let (b, c) = acting-fires cfg base p.supply p.locked old p.at fired in
      let out = is_battery_sound p.supply b in
      elim c [
        | inl z ↦ (p.at, ((out, inl refl), omega arith))
        | inr (t, (e, l)) ↦ (t, ((out, inr (unplug-IsOut st earlier t n e)), l))
      ]

fired_once :
    (cfg : Config) (base current : PowerState) (locked : Option Bool) (st : DaemonState) (now : ℕ)
    → cfg.power.policy ≡ trigger_once
    → (is_some (acting cfg base current locked st now).0 ≡ true
        → (acting cfg base current locked st now).1.power_trigger_once_fired ≡ true)
      × (st.power_trigger_once_fired ≡ true
          → ((acting cfg base current locked st now).0 ≡ none)
            × ((acting cfg base current locked st now).1.power_trigger_once_fired ≡ true))
unfolding acting on_battery wait fire is_trigger_once
fired_once cfg base current locked st now e = (λ h. ground arith, λ h. (ground arith, ground arith))

module _ (cfg : Config) (baseline : Option PowerState) (o : cfg.power.policy ≡ trigger_once) where
  poll_fired :
      (st : DaemonState) (p : PowerPoll)
      → (is_some (poll cfg baseline st p).0 ≡ true
          → (poll cfg baseline st p).1.1.power_trigger_once_fired ≡ true)
        × (st.power_trigger_once_fired ≡ true
            → ((poll cfg baseline st p).0 ≡ none)
              × ((poll cfg baseline st p).1.1.power_trigger_once_fired ≡ true))
  unfolding check_power
  poll_fired st p = elim (Option-cases baseline) [
    | inl e ↦ (λ h. ground arith, λ h. (ground arith, ground arith))
    | inr (base, e) ↦
        let f = fired_once cfg base p.supply p.locked st p.at o in
        (λ h. ground (arith, f.0), λ h. (ground (arith, f.1 h), ground (arith, f.1 h)))
  ]

  run_fired :
      (st : DaemonState) (later : List PowerPoll)
      → st.power_trigger_once_fired ≡ true
      → (run cfg baseline st later).power_trigger_once_fired ≡ true
  run_fired st [] h = h
  run_fired st (p ∷ earlier) h =
      ((poll_fired (run cfg baseline st earlier) p).1 (run_fired st earlier h)).1

  -- Under the trigger-once policy, after a poll that fires no later poll fires, whatever the supply
  -- and the lock read, until a baseline is captured again.
  pub trigger_once_fires_once :
      (st : DaemonState) (p : PowerPoll) (between : List PowerPoll) (q : PowerPoll)
      → is_some (poll cfg baseline st p).0 ≡ true
      → (poll cfg baseline (run cfg baseline (poll cfg baseline st p).1.1 between) q).0 ≡ none
  trigger_once_fires_once st p between q h =
      let later = run_fired (poll cfg baseline st p).1.1 between ((poll_fired st p).0 h) in
      ((poll_fired (run cfg baseline (poll cfg baseline st p).1.1 between) q).1 later).0
