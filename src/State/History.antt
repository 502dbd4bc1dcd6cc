-- ===== src/State/History.antt =====
-- The history of violations that `record_violation` keeps.
use plugkill.Prelude.{
  ℕ, zero, suc, ◌≤◌, ◌≡◌, refl, true, false, some, List, [], ◌∷◌, arith, length, take, length-take,
  Bool-cases, inl, inr, text_eq_refl,
}
use plugkill.Prelude.{nat_eq, list_eq, option_eq, option_beq_refl}
use plugkill.Allowances.{device_ref_eq}
use plugkill.State.{
  DaemonState, Violation, same_event, push_violation, record_in, record_violation, last_violation,
}

-- No two neighbours of the history are the same event, so a standing condition takes one slot.
abbrev pub Alternates : List (ℕ × Violation) → Type 0
Alternates [] = Unit
Alternates (a ∷ []) = Unit
Alternates (a ∷ b ∷ rest) = (same_event b.1 a.1 ≡ false) × Alternates (b ∷ rest)

-- What the poll loop maintains.
pub record IsHistory (h : List (ℕ × Violation)) : Type 0 where
  pub bounded : length h ≤ 50
  pub alternates : Alternates h

take-Alternates : (n : ℕ) (h : List (ℕ × Violation)) → Alternates h → Alternates (take n h)
take-Alternates zero h a = tt
take-Alternates (suc n) [] a = tt
take-Alternates (suc zero) (x ∷ []) a = tt
take-Alternates (suc (suc n)) (x ∷ []) a = tt
take-Alternates (suc zero) (x ∷ y ∷ h) a = tt
take-Alternates (suc (suc n)) (x ∷ y ∷ h) a = (a.0, take-Alternates (suc n) (y ∷ h) a.1)

same_event_refl : (v : Violation) → same_event v v ≡ true
unfolding same_event
same_event_refl v =
    ground (arith, text_eq_refl v.bus, option_beq_refl v.id, text_eq_refl v.description)

push_violation-IsHistory :
    (at : ℕ) (v : Violation) (h : List (ℕ × Violation))
    → Alternates ((at, v) ∷ h)
    → IsHistory (push_violation at v h)
unfolding push_violation
push_violation-IsHistory at v h a = record {
  bounded = omega (arith, length-take 49 h);
  alternates = take-Alternates 50 ((at, v) ∷ h) a;
}

-- The head's own identity decides what may follow it, so a new time stamp changes nothing.
refresh-Alternates :
    (at t : ℕ) (v : Violation) (h : List (ℕ × Violation))
    → Alternates ((t, v) ∷ h)
    → Alternates ((at, v) ∷ h)
refresh-Alternates at t v [] a = tt
refresh-Alternates at t v (x ∷ h) a = a

record_in-IsHistory :
    (at : ℕ) (v : Violation) (h : List (ℕ × Violation)) → IsHistory h → IsHistory (record_in at v h)
unfolding record_in
record_in-IsHistory at v [] i = push_violation-IsHistory at v [] tt
record_in-IsHistory at v ((t, w) ∷ h) i = elim (Bool-cases (same_event w v)) [
  | inl e ↦
      rw e (record { bounded = i.bounded; alternates = refresh-Alternates at t w h i.alternates })
  | inr e ↦ rw e (push_violation-IsHistory at v ((t, w) ∷ h) (e, i.alternates))
]

-- Recording a violation keeps the history at 50 entries at most with no event twice in a row, and
-- makes the recorded event the last violation: same bus, same identity, same description.
pub record_violation-IsHistory :
    (st : DaemonState) (at : ℕ) (v : Violation)
    → IsHistory st.violations
    → IsHistory (record_violation st at v).violations
      × (w : Violation) × (last_violation (record_violation st at v) ≡ some w)
      × (same_event w v ≡ true)
unfolding record_violation
record_violation-IsHistory st at v h =
    let (w, p, q) = newest st.violations in (record_in-IsHistory at v st.violations h, w, p, q)
  where
    newest :
        (l : List (ℕ × Violation))
        → (w : Violation) × (last_violation (record st { violations = record_in at v l }) ≡ some w)
          × (same_event w v ≡ true)
    newest [] = (v, unfold last_violation in refl, same_event_refl v)
    newest ((t, w) ∷ l) = elim (Bool-cases (same_event w v)) [
      | inl e ↦ (w, unfold last_violation in ground arith, e)
      | inr e ↦ (v, unfold last_violation in ground arith, same_event_refl v)
    ]
