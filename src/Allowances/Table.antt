-- ===== src/Allowances/Table.antt =====
-- The allowance table as a map from device identities: one entry for each device, and what every
-- operation does to the entry of any device.
pub mod Refines
use plugkill.Prelude.{
  ℕ, ◌≡◌, refl, Bool, true, not, Option, none, some, List, [], ◌∷◌, ◌++◌, arith, ◌==◌, ==_congr,
  ==_congr_right, ==_comm, or_else, if◌then◌else◌, filter, filter-All, All, Bool-cases, inl, inr,
}
use plugkill.Allowances.{
  DeviceRef, device_ref_eq, Allowance, AllowanceTable, is_active, remove_entry, remove, add, sweep,
}

-- The entry of a device.
unfoldable pub find_entry : DeviceRef → List Allowance → Option Allowance
find_entry id [] = none
find_entry id (a ∷ rest) = if a.id == id then some a else find_entry id rest

abbrev pub entry : AllowanceTable → DeviceRef → Option Allowance
entry t id = find_entry id t.entries

-- No device has two entries.
abbrev pub Distinct : List Allowance → Type 0
Distinct [] = Unit
Distinct (a ∷ rest) = (find_entry a.id rest ≡ none) × Distinct rest

abbrev pub IsTable : AllowanceTable → Type 0
IsTable t = Distinct t.entries

find_entry_congr :
    (i j : DeviceRef) (l : List Allowance) → (i == j) ≡ true → find_entry i l ≡ find_entry j l
unfolding find_entry
find_entry_congr i j [] h = refl
find_entry_congr i j (a ∷ l) h = ground (arith, ==_congr_right i j a.id h, find_entry_congr i j l h)

find-remove_entry :
    (i j : DeviceRef) (l : List Allowance)
    → Distinct l
    → find_entry j (remove_entry i l).1 ≡ (if i == j then none else find_entry j l)
unfolding find_entry remove_entry
find-remove_entry i j [] d = ground arith
find-remove_entry i j (a ∷ l) d = ground (
  arith,
  find-remove_entry i j l d.1,
  ==_congr a.id i j,
  ==_congr_right i j a.id,
  find_entry_congr a.id j l,
  d.0,
)

removed-find : (i : DeviceRef) (l : List Allowance) → (remove_entry i l).0 ≡ find_entry i l
unfolding find_entry remove_entry
removed-find i [] = refl
removed-find i (a ∷ l) = ground (arith, removed-find i l)

remove_entry-Distinct :
    (i : DeviceRef) (l : List Allowance) → Distinct l → Distinct (remove_entry i l).1
unfolding remove_entry
remove_entry-Distinct i [] d = tt
remove_entry-Distinct i (a ∷ l) d = elim (Bool-cases (a.id == i)) [
  | inl e ↦ rw e d.1
  | inr e ↦ rw e (
    ground (arith, find-remove_entry i a.id l d.1, ==_comm i a.id, d.0),
    remove_entry-Distinct i l d.1,
  )
]

find-append :
    (i : DeviceRef) (l : List Allowance) (a : Allowance)
    → find_entry i (l ++ a ∷ []) ≡ or_else (find_entry i l) (if a.id == i then some a else none)
unfolding find_entry
find-append i [] a = refl
find-append i (b ∷ l) a = ground (arith, find-append i l a)

append-Distinct :
    (l : List Allowance) (a : Allowance)
    → Distinct l
    → find_entry a.id l ≡ none
    → Distinct (l ++ a ∷ [])
unfolding find_entry
append-Distinct [] a d n = (refl, tt)
append-Distinct (b ∷ l) a d n = (
  ground (arith, find-append b.id l a, d.0, ==_comm a.id b.id),
  append-Distinct l a d.1 (ground arith),
)

pub find-filter :
    (p : Allowance → Bool) (i : DeviceRef) (l : List Allowance)
    → Distinct l
    → find_entry i (filter p l)
      ≡ elim (find_entry i l) [ none ↦ none | some a ↦ if p a then some a else none ]
unfolding find_entry filter
find-filter p i [] d = refl
find-filter p i (a ∷ l) d = ground (arith, find-filter p i l d.1, d.0, find_entry_congr a.id i l)

pub filter-Distinct :
    (p : Allowance → Bool) (l : List Allowance) → Distinct l → Distinct (filter p l)
unfolding filter
filter-Distinct p [] d = tt
filter-Distinct p (a ∷ l) d = elim (Bool-cases (p a)) [
  | inl e ↦ rw e (ground (arith, find-filter p a.id l d.1, d.0), filter-Distinct p l d.1)
  | inr e ↦ rw e (filter-Distinct p l d.1)
]

module _ (t : AllowanceTable) (v : IsTable t) where
  -- Adding an allowance keeps the table a map, returns what the device had, gives the device the
  -- new allowance, and leaves every other device's entry as it was.
  pub entry-add :
      (a : Allowance)
      → IsTable (add t a).1
        × ((add t a).0 ≡ entry t a.id)
        × ((id : DeviceRef) → entry (add t a).1 id ≡ (if a.id == id then some a else entry t id))
  unfolding add
  entry-add a = (
    append-Distinct (remove_entry a.id t.entries).1 a (remove_entry-Distinct a.id t.entries v)
        (ground (arith, find-remove_entry a.id a.id t.entries v, device_ref_eq.eq_refl a.id)),
    removed-find a.id t.entries,
    λ id. ground (
      arith,
      find-append id (remove_entry a.id t.entries).1 a,
      find-remove_entry a.id id t.entries v,
    ),
  )

  -- Revoking keeps the table a map, returns the device's entry where it had one, and takes that
  -- entry away and no other.
  pub entry-remove :
      (i : DeviceRef)
      → IsTable (remove t i).1
        × ((remove t i).0 ≡ entry t i)
        × ((id : DeviceRef) → entry (remove t i).1 id ≡ (if i == id then none else entry t id))
  unfolding remove
  entry-remove i = (
    remove_entry-Distinct i t.entries v,
    removed-find i t.entries,
    λ id. find-remove_entry i id t.entries v,
  )

  -- A sweep keeps the table a map and keeps an entry exactly when it is active; what it hands back
  -- is expired.
  pub entry-sweep :
      (now : ℕ)
      → IsTable (sweep t now).1
        × ((id : DeviceRef)
            → entry (sweep t now).1 id ≡ elim (entry t id) [
              | none ↦ none
              | some a ↦ if is_active a now then some a else none
            ])
        × All (λ a. not (is_active a now) ≡ true) (sweep t now).0
  unfolding sweep
  entry-sweep now = (
    filter-Distinct (λ a. is_active a now) t.entries v,
    λ id. find-filter (λ a. is_active a now) id t.entries v,
    filter-All (λ a. not (is_active a now)) t.entries,
  )
