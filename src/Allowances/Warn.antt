-- ===== src/Allowances/Warn.antt =====
-- The expiry warnings of `AllowanceTable::due_to_warn`.
use plugkill.Prelude.{
  ℕ, ◌≤◌, ◌≡◌, refl, true, Option, none, some, List, [], ◌∷◌, arith, All, Option-cases, inl, inr,
}
use plugkill.Allowances.{
  DeviceRef, device_ref_eq, Allowance, AllowanceTable, due_in, due_entries, due_to_warn,
}
use plugkill.Allowances.Table.{find_entry, entry, Distinct, IsTable}

-- An entry after the warnings: flagged if it was due, and otherwise as it was.
abbrev pub flagged : Allowance → Option ℕ → Allowance
flagged a none = a
flagged a (some left) = record a { warned = true }

warned_not_due : (a : Allowance) (now ahead : ℕ) → a.warned ≡ true → due_in a now ahead ≡ none
unfolding due_in
warned_not_due a now ahead h = ground arith

find-due_entries :
    (i : DeviceRef) (now ahead : ℕ) (l : List Allowance)
    → find_entry i (due_entries now ahead l).1
      ≡ elim (find_entry i l) [ none ↦ none | some a ↦ some (flagged a (due_in a now ahead)) ]
unfolding find_entry due_entries
find-due_entries i now ahead [] = refl
find-due_entries i now ahead (a ∷ l) = elim (Option-cases (due_in a now ahead)) [
  | inl e ↦ ground (arith, find-due_entries i now ahead l)
  | inr (left, e) ↦ ground (arith, find-due_entries i now ahead l)
]

due_entries-Distinct :
    (now ahead : ℕ) (l : List Allowance) → Distinct l → Distinct (due_entries now ahead l).1
unfolding due_entries find_entry
due_entries-Distinct now ahead [] d = tt
due_entries-Distinct now ahead (a ∷ l) d = elim (Option-cases (due_in a now ahead)) [
  | inl e ↦
      rw (e, due_entries, Distinct)
        (
          ground (arith, find-due_entries a.id now ahead l, d.0),
          due_entries-Distinct now ahead l d.1,
        )
  | inr (left, e) ↦
      rw (e, due_entries, Distinct)
        (
          ground (arith, find-due_entries a.id now ahead l, d.0),
          due_entries-Distinct now ahead l d.1,
        )
]

-- A round of warnings keeps one entry for each device.
pub due_to_warn-IsTable :
    (t : AllowanceTable) (now ahead : ℕ) → IsTable t → IsTable (due_to_warn t now ahead).1
unfolding due_to_warn
due_to_warn-IsTable t now ahead d = due_entries-Distinct now ahead t.entries d

due_in_bound :
    (a : Allowance) (now ahead : ℕ) {left : ℕ} → due_in a now ahead ≡ some left → left ≤ ahead
unfolding due_in
due_in_bound a now ahead h = ground arith

due_soon : (now ahead : ℕ) (l : List Allowance) → All (λ d. d.1 ≤ ahead) (due_entries now ahead l).0
unfolding due_entries
due_soon now ahead [] = tt
due_soon now ahead (a ∷ l) = elim (Option-cases (due_in a now ahead)) [
  | inl e ↦ rw (e, due_entries, All) (due_soon now ahead l)
  | inr (left, e) ↦ rw (e, due_entries, All) (due_in_bound a now ahead e, due_soon now ahead l)
]

-- A second look at the same moment finds nothing more to warn of.
none_twice :
    (now ahead : ℕ) (l : List Allowance)
    → (due_entries now ahead (due_entries now ahead l).1).0 ≡ []
unfolding due_entries
none_twice now ahead [] = refl
none_twice now ahead (a ∷ l) = elim (Option-cases (due_in a now ahead)) [
  | inl e ↦ ground (arith, none_twice now ahead l)
  | inr (left, e) ↦
      ground
        (arith, none_twice now ahead l, warned_not_due (record a { warned = true }) now ahead refl)
]

-- A round of warnings flags the entry of a device when its expiry is within `ahead`, and changes
-- nothing else in the table; every time it reports is within `ahead`; a second round at the same
-- moment reports nothing; and a flagged entry is never due again, at any later time.
pub warns_once :
    (t : AllowanceTable) (now ahead : ℕ)
    → ((id : DeviceRef)
        → entry (due_to_warn t now ahead).1 id
          ≡ elim (entry t id) [ none ↦ none | some a ↦ some (flagged a (due_in a now ahead)) ])
      × All (λ d. d.1 ≤ ahead) (due_to_warn t now ahead).0
      × ((due_to_warn (due_to_warn t now ahead).1 now ahead).0 ≡ [])
      × ((a : Allowance) (left later : ℕ) → due_in (flagged a (some left)) later ahead ≡ none)
unfolding due_to_warn
warns_once t now ahead = (
  λ id. find-due_entries id now ahead t.entries,
  due_soon now ahead t.entries,
  none_twice now ahead t.entries,
  λ a left later. warned_not_due (record a { warned = true }) later ahead refl,
)
