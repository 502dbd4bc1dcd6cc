-- ===== src/Allowances/Table/Refines.antt =====
-- The allowance table against its specification: a partial function from device identities. What
-- the source returns of many devices comes in an order that the specification leaves open.
use plugkill.Prelude.{
  ℕ, ◌-◌, ◌≡◌, refl, Bool, true, false, not, ◌&&◌, Option, none, some, List, [], ◌∷◌, arith, ◌==◌,
  if◌then◌else◌, leb, length, map, Text, filter, ◌∙◌, ap,
}
use plugkill.Allowances.{
  DeviceRef, device_ref_eq, Allowance, AllowanceTable, is_active, due_in, expires_in, remove, add,
  sweep, clear, due_entries, due_to_warn, selector,
}
use plugkill.Allowances.Table.{
  find_entry, entry, Distinct, IsTable, entry-add, entry-remove, entry-sweep, find-filter,
  filter-Distinct,
}
use plugkill.Allowances.Warn.{due_to_warn-IsTable, warns_once}

-- The calls that the daemon makes on its table, and what they return.
pub data TableCall : Type 0 where
  add_one : Allowance → TableCall
  remove_one : DeviceRef → TableCall
  sweep_at : ℕ → TableCall
  clear_all : TableCall
  warn_at : ℕ → ℕ → TableCall

pub data Returned : Type 0 where
  old : Option Allowance → Returned
  expired : List Allowance → Returned
  cleared : ℕ → Returned
  warnings : List (Text × ℕ) → Returned

abbrev pub call : TableCall → AllowanceTable → Returned × AllowanceTable
call (add_one a) t = (old (add t a).0, (add t a).1)
call (remove_one id) t = (old (remove t id).0, (remove t id).1)
call (sweep_at now) t = (expired (sweep t now).0, (sweep t now).1)
call clear_all t = (cleared (clear t).0, (clear t).1)
call (warn_at now ahead) t = (warnings (due_to_warn t now ahead).0, (due_to_warn t now ahead).1)

abbrev pub Grants : Type 0
Grants = DeviceRef → Option Allowance

-- The allowances of a partial function that pass a test.
abbrev pub only : (Allowance → Bool) → Grants → Grants
only p m = λ id. elim (m id) [ none ↦ none | some a ↦ if p a then some a else none ]

-- An allowance's deadline: whether it has passed, and the time to it.
abbrev pub has_expired : ℕ → Allowance → Bool
has_expired now a = elim a.expires_at [ none ↦ false | some e ↦ leb e now ]

abbrev pub left_of : ℕ → Allowance → ℕ
left_of now a = elim a.expires_at [ none ↦ 0 | some e ↦ e - now ]

abbrev pub needs_warning : ℕ → ℕ → Allowance → Bool
needs_warning now ahead a = elim a.expires_at [
  | none ↦ false
  | some e ↦ not a.warned && leb (e - now) ahead
]

-- What a call leaves of a partial function.
abbrev pub call_spec : TableCall → Grants → Grants
call_spec (add_one a) m = λ id. if a.id == id then some a else m id
call_spec (remove_one i) m = λ id. if i == id then none else m id
call_spec (sweep_at now) m = only (λ a. not (has_expired now a)) m
call_spec clear_all m = λ id. none
call_spec (warn_at now ahead) m = λ id. elim (m id) [
  | none ↦ none
  | some a ↦ some (if needs_warning now ahead a then record a { warned = true } else a)
]

-- A list of the allowances of a partial function, each once.
abbrev pub Lists : List Allowance → Grants → Type 0
Lists l m = Distinct l × ((id : DeviceRef) → find_entry id l ≡ m id)

-- What a call may return of a partial function.
abbrev pub Answers : TableCall → Grants → Returned → Type 0
Answers (add_one a) m r = r ≡ old (m a.id)
Answers (remove_one i) m r = r ≡ old (m i)
Answers (sweep_at now) m r =
    (l : List Allowance) × Lists l (only (has_expired now) m) × (r ≡ expired l)
Answers clear_all m r = (l : List Allowance) × Lists l m × (r ≡ cleared (length l))
Answers (warn_at now ahead) m r =
    (l : List Allowance) × Lists l (only (needs_warning now ahead) m)
    × (r ≡ warnings (map (λ (a : Allowance). (selector a.id, left_of now a)) l))

-- What a sequence of calls returns and leaves, and the same on a partial function.
abbrev pub calls : List TableCall → AllowanceTable → List Returned × AllowanceTable
calls [] t = ([], t)
calls (c ∷ cs) t = ((call c t).0 ∷ (calls cs (call c t).1).0, (calls cs (call c t).1).1)

abbrev pub calls_spec : List TableCall → Grants → Grants
calls_spec [] m = m
calls_spec (c ∷ cs) m = calls_spec cs (call_spec c m)

abbrev pub AnswersAll : List TableCall → Grants → List Returned → Type 0
AnswersAll [] m rs = rs ≡ []
AnswersAll (c ∷ cs) m [] = ⊥
AnswersAll (c ∷ cs) m (r ∷ rs) = Answers c m r × AnswersAll cs (call_spec c m) rs

-- A table that stands for a partial function.
pub record Represents (t : AllowanceTable) (m : Grants) : Type 0 where
  pub table : IsTable t
  pub agrees : (id : DeviceRef) → entry t id ≡ m id

active_or_expired : (a : Allowance) (now : ℕ) → is_active a now ≡ not (has_expired now a)
unfolding is_active
active_or_expired a now = ground arith

due-warning :
    (a : Allowance) (now ahead : ℕ)
    → due_in a now ahead ≡ (if needs_warning now ahead a then some (left_of now a) else none)
unfolding due_in expires_in
due-warning a now ahead = ground arith

-- The reports are those of the entries that are due.
due_entries-map :
    (now ahead : ℕ) (l : List Allowance)
    → (due_entries now ahead l).0
      ≡ map (λ (a : Allowance). (selector a.id, left_of now a)) (filter (needs_warning now ahead) l)
unfolding due_entries filter
due_entries-map now ahead [] = refl
due_entries-map now ahead (a ∷ l) =
    ground (arith, due_entries-map now ahead l, due-warning a now ahead)

filter-expired :
    (now : ℕ) (l : List Allowance)
    → filter (λ a. not (is_active a now)) l ≡ filter (has_expired now) l
unfolding filter
filter-expired now [] = refl
filter-expired now (a ∷ l) = ground (arith, filter-expired now l, active_or_expired a now)

filter-Lists :
    (p : Allowance → Bool) (t : AllowanceTable) (m : Grants)
    → Represents t m
    → Lists (filter p t.entries) (only p m)
filter-Lists p t m r = (
  filter-Distinct p t.entries r.table,
  λ id.
      find-filter p id t.entries r.table
      ∙ ap
          (λ o. elim o as (λ x. Option Allowance) [
            | none ↦ none
            | some a ↦ if p a then some a else none
          ])
          (r.agrees id),
)

call-Represents :
    (c : TableCall) (t : AllowanceTable) (m : Grants)
    → Represents t m
    → Represents (call c t).1 (call_spec c m) × Answers c m (call c t).0
call-Represents (add_one a) t m r =
    let (table, prior, here) = entry-add t r.table a in
    (
      record { table = table; agrees = λ id. ground (arith, here id, r.agrees id) },
      ground (arith, prior, r.agrees a.id),
    )
call-Represents (remove_one i) t m r =
    let (table, prior, here) = entry-remove t r.table i in
    (
      record { table = table; agrees = λ id. ground (arith, here id, r.agrees id) },
      ground (arith, prior, r.agrees i),
    )
call-Represents (sweep_at now) t m r =
    let (table, here, dropped) = entry-sweep t r.table now in
    (
      record {
        table = table;
        agrees = λ id. unfold is_active in ground (arith, here id, r.agrees id);
      },
      (
        filter (has_expired now) t.entries,
        filter-Lists (has_expired now) t m r,
        unfold sweep in ap expired (filter-expired now t.entries),
      ),
    )
call-Represents clear_all t m r = (
  unfold clear in record { table = tt; agrees = λ id. unfold find_entry in refl },
  (t.entries, (r.table, r.agrees), unfold clear in refl),
)
call-Represents (warn_at now ahead) t m r = (
  record {
    table = due_to_warn-IsTable t now ahead r.table;
    agrees = λ id.
        unfold due_in expires_in in ground (arith, (warns_once t now ahead).0 id, r.agrees id);
  },
  (
    filter (needs_warning now ahead) t.entries,
    filter-Lists (needs_warning now ahead) t m r,
    unfold due_to_warn in ap warnings (due_entries-map now ahead t.entries),
  ),
)

-- From a table that stands for a partial function, any sequence of additions, revocations, sweeps,
-- clearings and warning rounds leaves a table with one entry for each device that stands for the
-- function that the same calls leave, and returns what the function has: an addition and a
-- revocation the device's old allowance, a sweep the expired allowances, a clearing the number of
-- allowances, and a warning round the selector and the time left of each allowance that is due and
-- not yet flagged, each once and in an order that is left open.
pub calls_refine :
    (cs : List TableCall) (t : AllowanceTable) (m : Grants)
    → Represents t m
    → Represents (calls cs t).1 (calls_spec cs m) × AnswersAll cs m (calls cs t).0
calls_refine [] t m r = (r, refl)
calls_refine (c ∷ cs) t m r =
    let (r', out) = call-Represents c t m r in
    let (last, outs) = calls_refine cs (call c t).1 (call_spec c m) r' in (last, (out, outs))
