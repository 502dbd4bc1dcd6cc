-- ===== src/Edid/Parse/Bounds.antt =====
-- What `parse` accepts, and the bounds on the identity it returns.
use plugkill.Prelude.{
  ℕ, zero, suc, ◌^◌, ◌≤◌, ◌<◌, ◌≡◌, refl, true, some, List, [], ◌∷◌, map, arith, take, drop, length,
  length-take, ltb, ltb→lt, eqb, if◌then◌else◌, All, every, is_ascii_uppercase, Text, Option-cases,
  Bool-cases, inl, inr, ok,
}
use plugkill.Edid.{EdidId}
use plugkill.Edid.Parse.{
  max_name, edid_base_len, at, descriptor, line, printable, trim_start, trim_end, name_of, is_name,
  name_at, monitor_name, letters, serial_of, u16_be, u16_le, u32_le, parse_block, parse,
}
use plugkill.Allowances.{display, selector}
use plugkill.Allowances.Selector.{from_str}
use plugkill.Allowances.Selector.RoundTrip.{IsSelectable, nameless, from_str-selector}

-- A byte of the device.
abbrev pub IsByte : ℕ → Type 0
IsByte c = c < 256

-- Bytes, by the test of each.
pub every-IsByte : (s : Text) → every (λ c. ltb c 256) s ≡ true → All IsByte s
unfolding every
every-IsByte [] h = tt
every-IsByte (c ∷ s) h = (ltb→lt c 256 (ground arith), every-IsByte s (ground arith))

at-IsByte : (s : Text) (i : ℕ) → All IsByte s → at s i < 256
at-IsByte [] i h = omega arith
at-IsByte (c ∷ s) zero h = h.0
at-IsByte (c ∷ s) (suc i) h = at-IsByte s i h.1

take-All : (P : ℕ → Type 0) (n : ℕ) (s : Text) → All P s → All P (take n s)
take-All P zero s h = tt
take-All P (suc n) [] h = tt
take-All P (suc n) (c ∷ s) h = (h.0, take-All P n s h.1)

letters-are_upper :
    (packed : ℕ) (shifts : List ℕ) (mfg : Text)
    → letters packed shifts ≡ some mfg
    → (length mfg ≡ length shifts) × (every is_ascii_uppercase mfg ≡ true)
unfolding letters every is_ascii_uppercase
letters-are_upper packed [] mfg h = (ground arith, ground arith)
letters-are_upper packed (shift ∷ shifts) mfg h = elim (Option-cases (letters packed shifts)) [
  | inl e ↦ ground arith
  | inr (rest, e) ↦ let ih = letters-are_upper packed shifts rest e in (ground arith, ground arith)
]

line_shortens : (s : Text) → length (line s) ≤ length s
unfolding line
line_shortens [] = omega arith
line_shortens (c ∷ s) = ground (arith, line_shortens s)

length-printable : (s : Text) → length (map printable s) ≡ length s
length-printable [] = refl
length-printable (c ∷ s) = ground (arith, length-printable s)

trim_start_shortens : (s : Text) → length (trim_start s) ≤ length s
unfolding trim_start
trim_start_shortens [] = omega arith
trim_start_shortens (c ∷ s) = ground (arith, trim_start_shortens s)

trim_end_shortens : (s : Text) → length (trim_end s) ≤ length s
unfolding trim_end
trim_end_shortens [] = omega arith
trim_end_shortens (c ∷ s) = ground (arith, trim_end_shortens s)

-- A printable ASCII character.
abbrev pub IsPrintable : ℕ → Type 0
IsPrintable c = (0x20 ≤ c) × (c < 0x7F)

printable-IsPrintable : (s : Text) → All IsPrintable (map printable s)
unfolding printable
printable-IsPrintable [] = tt
printable-IsPrintable (c ∷ s) = ((ground arith, ground arith), printable-IsPrintable s)

trim_start-IsPrintable : (s : Text) → All IsPrintable s → All IsPrintable (trim_start s)
unfolding trim_start
trim_start-IsPrintable [] h = tt
trim_start-IsPrintable (c ∷ s) h = elim (Bool-cases (eqb c b' ')) [
  | inl e ↦ rw e (trim_start-IsPrintable s h.1)
  | inr e ↦ rw e h
]

trim_end_cons :
    (c : ℕ) (t : Text)
    → IsPrintable c
    → All IsPrintable t
    → All IsPrintable (elim t [ [] ↦ if eqb c b' ' then [] else c ∷ [] | d ∷ t ↦ c ∷ d ∷ t ])
trim_end_cons c [] p h = elim (Bool-cases (eqb c b' ')) [ inl e ↦ rw e tt | inr e ↦ rw e (p, tt) ]
trim_end_cons c (d ∷ t) p h = (p, h)

trim_end-IsPrintable : (s : Text) → All IsPrintable s → All IsPrintable (trim_end s)
unfolding trim_end
trim_end-IsPrintable [] h = tt
trim_end-IsPrintable (c ∷ s) h = trim_end_cons c (trim_end s) h.0 (trim_end-IsPrintable s h.1)

-- A monitor's name as it is kept: at most 13 printable characters.
pub record IsName (s : Text) : Type 0 where
  pub short : length s ≤ 13
  pub printed : All IsPrintable s

name_of-IsName : (d : Text) → IsName (name_of d)
unfolding name_of
name_of-IsName d =
    let s = line (take 13 (drop 5 d)) in
    let m = map printable s in
    let t = trim_end (trim_start m) in
    record {
      short = omega (
        arith,
        length-take max_name t,
        trim_end_shortens (trim_start m),
        trim_start_shortens m,
        length-printable s,
        line_shortens (take 13 (drop 5 d)),
        length-take 13 (drop 5 d),
      );
      printed = take-All IsPrintable max_name t (
          trim_end-IsPrintable (trim_start m) (trim_start-IsPrintable m (printable-IsPrintable s)));
    }

name_at-IsName : (b : Text) (offs : List ℕ) → IsName (name_at b offs)
unfolding name_at
name_at-IsName b [] = record { short = omega arith; printed = tt }
name_at-IsName b (off ∷ offs) = elim (Option-cases (descriptor b off)) [
  | inl e ↦ rw (e, name_at) (record { short = omega arith; printed = tt })
  | inr (d, e) ↦ elim (Bool-cases (is_name d)) [
    | inl n ↦ rw (e, name_at, n) (name_of-IsName d)
    | inr n ↦ rw (e, name_at, n) (name_at-IsName b offs)
  ]
]

serial_of_bound : (n : ℕ) → n < 2 ^ 32 → (s : ℕ) → serial_of n ≡ some s → s < 2 ^ 32
unfolding serial_of
serial_of_bound n h s e = ground arith

abbrev id_of : Text → Text → EdidId
id_of b mfg = record {
  mfg = mfg;
  product = u16_le (at b 10) (at b 11);
  serial = serial_of (u32_le (at b 12) (at b 13) (at b 14) (at b 15));
  name = monitor_name b;
}

parse_block_inv :
    (b : Text) (id : EdidId)
    → parse_block b ≡ some id
    → (mfg : Text) × (letters (u16_be (at b 8) (at b 9)) (10 ∷ 5 ∷ 0 ∷ []) ≡ some mfg)
      × (id ≡ id_of b mfg)
unfolding parse_block
parse_block_inv b id e =
    elim (Option-cases (letters (u16_be (at b 8) (at b 9)) (10 ∷ 5 ∷ 0 ∷ []))) [
      | inl l ↦ ground arith
      | inr (mfg, l) ↦ (mfg, l, ground arith)
    ]

-- An identity that a selector can carry, with a bounded and printable name.
pub record IsIdentity (id : EdidId) : Type 0 where
  pub selectable : IsSelectable (display id)
  pub named : IsName id.name

id_of-IsIdentity :
    (b mfg : Text)
    → All IsByte b
    → letters (u16_be (at b 8) (at b 9)) (10 ∷ 5 ∷ 0 ∷ []) ≡ some mfg
    → IsIdentity (id_of b mfg)
unfolding monitor_name
id_of-IsIdentity b mfg h l =
    let (long, upper) = letters-are_upper (u16_be (at b 8) (at b 9)) (10 ∷ 5 ∷ 0 ∷ []) mfg l in
    record {
      selectable = (
        long,
        upper,
        omega (arith, at-IsByte b 10 h, at-IsByte b 11 h),
        serial_of_bound (u32_le (at b 12) (at b 13) (at b 14) (at b 15))
            (omega (arith, at-IsByte b 12 h, at-IsByte b 13 h, at-IsByte b 14 h, at-IsByte b 15 h)),
      );
      named = name_at-IsName b (54 ∷ 72 ∷ 90 ∷ 108 ∷ []);
    }

-- An EDID that parses gives an identity of three capital letters, a 16-bit product code, a serial
-- of 32 bits if any, and a name of at most 13 printable characters, whatever bytes the monitor
-- sent; and its selector parses back to that identity, the name aside.
pub parsed-IsIdentity :
    (bytes : Text) (id : EdidId)
    → All IsByte bytes
    → parse bytes ≡ some id
    → IsIdentity id × (from_str (selector (display id)) ≡ ok (nameless (display id)))
unfolding parse
parsed-IsIdentity bytes id h e =
    let b = take edid_base_len bytes in
    let (mfg, l, same) = parse_block_inv b id (ground arith) in
    let is_id : IsIdentity id =
      rw same (id_of-IsIdentity b mfg (take-All IsByte edid_base_len bytes h) l) in
    (is_id, from_str-selector (display id) is_id.selectable)
