-- ===== src/State/Waiting.antt =====
-- The argument that the power, network and lid checks share: what each poll does to the time that
-- is recorded, over any sequence of polls.
use plugkill.Prelude.{
  ℕ, ◌+◌, ◌≤◌, ◌≡◌, ◌⊎◌, refl, Bool, true, Option, none, some, List, [], ◌∷◌, arith, inl, inr,
}

module _ {P : Type 0} (IsTripped : P → Type 0) (at : P → ℕ) where
  -- The condition held at the poll at time `t` and at every poll since, the newest first.
  abbrev pub HasHeldSince : ℕ → List P → Type 0
  HasHeldSince t [] = ⊥
  HasHeldSince t (p ∷ earlier) = IsTripped p × ((at p ≡ t) ⊎ HasHeldSince t earlier)

-- The state after polls, the newest first.
abbrev pub after : {S P : Type 0} → (S → P → Bool × S) → S → List P → S
after step s [] = s
after step s (p ∷ earlier) = (step (after step s earlier) p).1

-- A check, by the time that it records, what it asks for to keep one and what it asks for to fire.
module _ {S P : Type 0} (IsTripped : P → Type 0) (at : P → ℕ) (grace : ℕ) (since : S → Option ℕ)
    (step : S → P → Bool × S)
    (kept : (s : S) (p : P) (t : ℕ)
      → since (step s p).1 ≡ some t
      → IsTripped p × ((at p ≡ t) ⊎ (since s ≡ some t)))
    (fires : (s : S) (p : P)
      → (step s p).0 ≡ true
      → IsTripped p × ((grace ≡ 0) ⊎ ((t : ℕ) × ((since s ≡ some t) × (t + grace ≤ at p))))) where
  after-HasHeldSince :
      (s : S) (polls : List P) (t : ℕ)
      → since s ≡ none
      → since (after step s polls) ≡ some t
      → HasHeldSince IsTripped at t polls
  after-HasHeldSince s [] t n h = ground arith
  after-HasHeldSince s (p ∷ earlier) t n h =
      let (b, c) = kept (after step s earlier) p t h in
      (b, elim c [ inl e ↦ inl e | inr e ↦ inr (after-HasHeldSince s earlier t n e) ])

  pub fires-HasHeldSince :
      (s : S) (p : P) (earlier : List P)
      → since s ≡ none
      → (step (after step s earlier) p).0 ≡ true
      → (t : ℕ) × (HasHeldSince IsTripped at t (p ∷ earlier) × (t + grace ≤ at p))
  fires-HasHeldSince s p earlier n h =
      let (b, c) = fires (after step s earlier) p h in
      elim c [
        | inl z ↦ (at p, ((b, inl refl), omega arith))
        | inr (t, (e, l)) ↦ (t, ((b, inr (after-HasHeldSince s earlier t n e)), l))
      ]
