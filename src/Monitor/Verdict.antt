-- ===== src/Monitor/Verdict.antt =====
-- When an iteration that found a violation runs the kill sequence.
use plugkill.Prelude.{
  ℕ, ◌<◌, ◌+◌, ◌≡◌, ◌⊎◌, refl, Bool, true, false, Option, none, some, arith, is_some, Text,
  Bool-cases, Option-cases, inl, inr, sym, ap, ◌∙◌, ◌==◌, if◌then◌else◌,
}
use plugkill.Allowances.{DeviceRef, device_ref_eq}
use plugkill.Allowances.Table.{IsTable, entry}
use plugkill.State.{
  DaemonState, PairingWindow, Violation, enforce, learn, same_event, last_violation, display_limit,
  admit_paired, record_violation, admit_under, open_window,
}
use plugkill.State.History.{record_violation-IsHistory, IsHistory}
use plugkill.State.Pairing.{pairing_admits_one, pairing_grant, pairing_refuses}
use plugkill.Monitor.{settle, admit_or_keep, handle_violation}

admit_paired-mode :
    (st : DaemonState) (id : DeviceRef) (name : Option Text) (now : ℕ) (has_identity : Bool)
    → (admit_paired st id name now has_identity).0.mode ≡ st.mode
unfolding admit_paired admit_under
admit_paired-mode st id name now has_identity = ground arith

-- While the daemon enforces, a violation that is not an appearance runs the kill sequence, whatever
-- pairing window is open, and its
-- event becomes the newest entry of a history that stays in order.
pub removal_kills :
    (st : DaemonState) (v : Violation) (now at : ℕ) (has_identity : Bool)
    → IsHistory st.violations
    → st.mode ≡ enforce
    → v.appeared ≡ false
    → let (killed, st') = settle st v now at has_identity in
      (killed ≡ true)
      × IsHistory st'.violations
      × ((w : Violation) × ((last_violation st' ≡ some w) × (same_event w v ≡ true)))
removal_kills st v now at has_identity h e a =
    let same : settle st v now at has_identity ≡ (true, record_violation st at v) =
      unfold settle admit_or_keep handle_violation record_violation in ground arith in
    let (k, w, p, q) = record_violation-IsHistory st at v h in rw same (refl, k, (w, (p, q)))

-- A violation that the pairing window lets in: the appearance of a device that the platform can
-- identify, under a window that is still open.
pub record IsLetIn (st : DaemonState) (v : Violation) (now : ℕ) (has_identity : Bool) : Type 0 where
  pub appeared : v.appeared ≡ true
  pub id : DeviceRef
  pub named : v.id ≡ some id
  pub identified : display_limit id has_identity ≡ none
  pub window : PairingWindow
  pub stands : st.pairing ≡ some window
  pub in_time : now < window.until

-- What is left of a violation that a window lets in: an allowance with the window's expiry, no
-- window, and no trace in the history or the counter.
abbrev pub LetIn : DaemonState → DaemonState → Violation → ℕ → Bool → Type 0
LetIn st st' v now has_identity =
    (c : IsLetIn st v now has_identity) × ((j : DeviceRef)
      → entry st'.allowances j ≡ (
          if c.id == j
          then some (pairing_grant c.id v.name now c.window.ttl)
          else entry st.allowances j))
    × (st'.pairing ≡ none)
    × (st'.violations_logged ≡ st.violations_logged)
    × (st'.violations ≡ st.violations)

-- What is left of another one: it is counted and is the newest of the history, and the allowances
-- and the window are as they were.
abbrev pub Counted : DaemonState → DaemonState → Violation → ℕ → Bool → Type 0
Counted st st' v now has_identity =
    (¬ IsLetIn st v now has_identity)
    × (st'.violations_logged ≡ st.violations_logged + 1)
    × ((w : Violation) × ((last_violation st' ≡ some w) × (same_event w v ≡ true)))
    × (st'.allowances ≡ st.allowances)
    × (st'.pairing ≡ st.pairing)

settle-Counted :
    (st : DaemonState) (v : Violation) (now at : ℕ) (has_identity : Bool)
    → IsHistory st.violations
    → st.mode ≡ learn
    → admit_or_keep st v now has_identity ≡ (some v, st)
    → ¬ IsLetIn st v now has_identity
    → let (killed, st') = settle st v now at has_identity in
      (killed ≡ false) × Counted st st' v now has_identity
settle-Counted st v now at has_identity h e k n =
    let (_, w, p, q) = record_violation-IsHistory st at v h in
    let st2 = record_violation st at v in
    let same : settle st v now at has_identity
        ≡ (false, record st2 { violations_logged = st2.violations_logged + 1 }) =
      unfold settle handle_violation record_violation in ground arith in
    rw same (
      refl,
      (
        n,
        (unfold record_violation in refl),
        (w, (unfold last_violation in p, q)),
        (unfold record_violation in refl),
        (unfold record_violation in refl),
      ),
    )

settle-LetIn :
    (st : DaemonState) (v : Violation) (now at : ℕ) (has_identity : Bool)
    → IsTable st.allowances
    → (c : IsLetIn st v now has_identity)
    → let (killed, st') = settle st v now at has_identity in
      (killed ≡ false) × LetIn st st' v now has_identity
settle-LetIn st v now at has_identity t c =
    let r =
      pairing_admits_one st c.window c.id v.name now has_identity t c.stands c.in_time
        c.identified in
    let st2 = (admit_paired st c.id v.name now has_identity).0 in
    let first : settle st v now at has_identity ≡ (false, st2) =
      let p = c.appeared in let n = c.named in unfold settle admit_or_keep in ground (arith, r.0) in
    let p = c.stands in
    let l = c.in_time in
    let d = c.identified in
    rw first (
      refl,
      (
        c,
        r.1,
        (unfold admit_paired admit_under in ground arith),
        (unfold admit_paired admit_under in ground arith),
        (unfold admit_paired admit_under in ground arith),
      ),
    )

refused_kept :
    (st : DaemonState) (v : Violation) (id : DeviceRef) (now : ℕ) (has_identity : Bool)
    → v.id ≡ some id
    → admit_paired st id v.name now has_identity ≡ (st, false)
    → admit_or_keep st v now has_identity ≡ (some v, st)
unfolding admit_or_keep
refused_kept st v id now has_identity e r = ground arith

open_window-some :
    (w : Option PairingWindow) (now : ℕ) (u : PairingWindow)
    → open_window w now ≡ some u
    → (w ≡ some u) × (now < u.until)
open_window-some none now u h = ground arith
open_window-some (some w) now u h = (ground arith, ground arith)

-- In learn mode, a violation that names its device if it is an appearance does not run the kill
-- sequence. Where an open pairing window lets the device in, the device gets an allowance with the
-- window's expiry, the window is closed, and nothing is counted; otherwise, and only then, the
-- violation is counted and is the newest of the history, and the allowances and the window stay.
pub learn_never_kills :
    (st : DaemonState) (v : Violation) (now at : ℕ) (has_identity : Bool)
    → IsTable st.allowances
    → IsHistory st.violations
    → st.mode ≡ learn
    → (v.appeared ≡ true → is_some v.id ≡ true)
    → let (killed, st') = settle st v now at has_identity in
      (killed ≡ false) × (LetIn st st' v now has_identity ⊎ Counted st st' v now has_identity)
learn_never_kills st v now at has_identity t h e a = elim (Bool-cases v.appeared) [
  | inr p ↦
      let (k, c) =
        settle-Counted st v now at has_identity h e (unfold admit_or_keep in ground arith)
          (λ c. let q = c.appeared in ground arith) in
      (k, inr c)
  | inl p ↦ elim (Option-cases v.id) [
    | inl n ↦ absurd (let s = a p in ground arith)
    | inr (id, n) ↦ elim (Option-cases (open_window st.pairing now)) [
      | inl o ↦
          let (k, c) =
            settle-Counted st v now at has_identity h e
              (refused_kept st v id now has_identity n
                (pairing_refuses st id v.name now has_identity (inl o)))
              (λ c. let q = c.stands in let l = c.in_time in ground arith) in
          (k, inr c)
      | inr (w, o) ↦ elim (Option-cases (display_limit id has_identity)) [
        | inr (l, d) ↦
            let (k, c) =
              settle-Counted st v now at has_identity h e
                (refused_kept st v id now has_identity n
                  (pairing_refuses st id v.name now has_identity (inr (λ z. ground arith))))
                (λ c.
                  let q = c.named in
                  let f = c.identified in
                  let same : c.id ≡ id = ground arith in
                  let z : display_limit id has_identity ≡ none =
                    ap (λ i. display_limit i has_identity) (sym same) ∙ f in
                  ground arith) in
            (k, inr c)
        | inl d ↦
            let (stands, in_time) = open_window-some st.pairing now w o in
            let (k, c) = settle-LetIn st v now at has_identity t (record {
              appeared = p;
              id = id;
              named = n;
              identified = d;
              window = w;
              stands = stands;
              in_time = in_time;
            }) in
            (k, inl c)
      ]
    ]
  ]
]

-- While the daemon enforces, an open pairing window spares the first identifiable device that
-- appears, and gives it an allowance; the next appearance of a device, whenever it comes, runs the
-- kill sequence.
pub window_spares_once :
    (st : DaemonState) (window : PairingWindow) (v next : Violation) (id other : DeviceRef)
    (now at later : ℕ) (has_identity : Bool)
    → IsTable st.allowances
    → st.mode ≡ enforce
    → st.pairing ≡ some window
    → now < window.until
    → (v.appeared ≡ true) × (v.id ≡ some id)
    → (next.appeared ≡ true) × (next.id ≡ some other)
    → display_limit id has_identity ≡ none
    → let (killed, st') = settle st v now at has_identity in
      (killed ≡ false)
      × (is_some (entry st'.allowances id) ≡ true)
      × ((settle st' next later at has_identity).0 ≡ true)
window_spares_once st window v next id other now at later has_identity t e p l a b d =
    let r = pairing_admits_one st window id v.name now has_identity t p l d in
    let st2 = (admit_paired st id v.name now has_identity).0 in
    let first : settle st v now at has_identity ≡ (false, st2) =
      unfold settle admit_or_keep in ground (arith, r.0) in
    let second : (settle st2 next later at has_identity).0 ≡ true =
      unfold settle admit_or_keep handle_violation record_violation in
      ground (
        arith,
        r.2 other next.name later has_identity,
        admit_paired-mode st2 other next.name later has_identity,
        admit_paired-mode st id v.name now has_identity,
      ) in
    rw first (refl, ground (arith, r.1 id, device_ref_eq.eq_refl id), second)
