-- ===== src/Monitor/Rearm.antt =====
-- What the first critical section of an iteration leaves: the deadline of a disarm, allowances, the
-- pairing window.
use plugkill.Prelude.{
  ℕ, ◌<◌, ◌+◌, ◌≡◌, inl, inr, refl, true, false, Option, none, some, arith, leb, Bool-cases, All,
  filter-All, from_secs,
}
use plugkill.Allowances.{is_active, sweep, due_to_warn}
use plugkill.State.{DaemonState, is_disarm_expired, PairingWindow, open_window}
use plugkill.Socket.Timing.{IsTimed}
use plugkill.Monitor.{rearm, close_window, drain, expiry_warn_ahead}

-- A pairing window that is left is open.
close_window-open :
    (w : Option PairingWindow) (now : ℕ) → open_window (close_window w now) now ≡ close_window w now
unfolding close_window
close_window-open none now = refl
close_window-open (some w) now = elim (Bool-cases (leb w.until now)) [
  | inl e ↦ ground arith
  | inr e ↦ ground arith
]

-- On a daemon that is timed as of some moment, the first section of an iteration keeps it so and
-- leaves it disarmed only within an hour of that moment; a daemon that this section arms is told
-- to capture its baselines.
pub drain_rearms :
    (st : DaemonState) (before reading now : ℕ)
    → IsTimed before st
    → let (d, st') = drain st reading now in
      (d.is_armed ≡ false → reading < before + from_secs 3600)
      × (d.is_armed ≡ true → st.armed ≡ false → d.needs_rebaseline ≡ true)
      × IsTimed before st'
unfolding drain rearm is_disarm_expired
drain_rearms st before reading now (inl (a, n)) =
    (λ f. ground arith, λ t f. ground arith, inl (ground arith, ground arith))
drain_rearms st before reading now (inr (a, (deadline, (e, l)))) =
    elim (Bool-cases (leb deadline reading)) [
      | inl x ↦ (λ f. ground arith, λ t f. ground arith, inl (ground arith, ground arith))
      | inr x ↦ (
        λ f. ground arith,
        λ t f. ground arith,
        inr (ground arith, (deadline, (ground arith, l))),
      )
    ]

-- After an iteration's first section every allowance left is active, and a pairing window that is
-- left is open.
drain_leaves_active :
    (st : DaemonState) (reading now : ℕ)
    → let st' = (drain st reading now).1 in
      All (λ a. is_active a now ≡ true) st'.allowances.entries
      × (open_window st'.pairing now ≡ st'.pairing)
unfolding drain sweep due_to_warn
drain_leaves_active st reading now = (
  filter-All (λ a. is_active a now)
      (due_to_warn (rearm st reading).allowances now expiry_warn_ahead).1.entries,
  close_window-open (rearm st reading).pairing now,
)
