-- ===== src/Relay/Trigger/Rise.antt =====
-- When the watcher of the local daemon reports a violation to the relay.
use plugkill.Prelude.{
  if◌then◌else◌, ℕ, ◌<◌, ◌≡◌, ◌↔◌, refl, arith, true, false, Option, none, some, List, [], ◌∷◌,
  codes, Result, ok, err, Option-cases, ◌==◌, list_eq, nat_eq, inl, inr,
}
use plugkill.Relay.Trigger.{
  StatusData, Answer, Watcher, new_watcher, unwrap_or, rises, read_status, poll,
}

-- The status that an answer holds.
abbrev pub readable : Result Answer → Option StatusData
readable (err e) = none
readable (ok a) = if unwrap_or a.ok_field false then a.status else none

-- The violations that the last readable answer counted, the newest answer first.
abbrev pub last_count : List (Result Answer) → Option ℕ
last_count [] = none
last_count (a ∷ earlier) = elim (readable a) [
  | none ↦ last_count earlier
  | some s ↦ some (unwrap_or s.violations_logged 0)
]

abbrev pub watch : List (Result Answer) → Watcher
watch [] = new_watcher
watch (a ∷ earlier) = (poll (watch earlier) a).1

poll-count :
    (self : Watcher) (a : Result Answer)
    → (poll self a).1.last_violations ≡ elim (readable a) [
      | none ↦ self.last_violations
      | some s ↦ some (unwrap_or s.violations_logged 0)
    ]
unfolding poll read_status
poll-count self a = ground arith

watch-last_count : (polls : List (Result Answer)) → (watch polls).last_violations ≡ last_count polls
unfolding new_watcher
watch-last_count [] = refl
watch-last_count (a ∷ earlier) =
    ground (arith, poll-count (watch earlier) a, watch-last_count earlier)

-- After any answers, the watcher reports a count exactly when the next answer is readable, the daemon
-- is armed and enforces, and the count has risen above the last readable answer's: the first
-- readable answer only sets the count, and answers that cannot be read change nothing.
watcher_reports_rise :
    (earlier : List (Result Answer)) (a : Result Answer) (v : ℕ)
    → ((poll (watch earlier) a).0 ≡ some v) ↔ (
        (s : StatusData) × (u : ℕ) × (readable a ≡ some s)
        × (s.armed ≡ some true)
        × ((unwrap_or s.mode [] == codes "enforce") ≡ true)
        × (unwrap_or s.violations_logged 0 ≡ v)
        × (last_count earlier ≡ some u)
        × (u < v))
unfolding poll read_status rises unwrap_or
watcher_reports_rise earlier a v =
    let last = watch-last_count earlier in
    (
      λ h. elim (Option-cases (readable a)) [
        | inl e ↦ ground arith
        | inr (s, e) ↦ elim (Option-cases (last_count earlier)) [
          | inl f ↦ ground arith
          | inr (u, f) ↦ (s, u, e, ground arith, ground arith, ground arith, f, ground arith)
        ]
      ],
      λ (s, u, e, m, n, c, f, l). ground arith,
    )
