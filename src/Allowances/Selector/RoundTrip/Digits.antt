-- ===== src/Allowances/Selector/RoundTrip/Digits.antt =====
-- Printing a number and reading it back.
use plugkill.Prelude.{
  ℕ, zero, suc, ◌+◌, ◌*◌, ◌/◌, ◌%◌, ◌<◌, ◌≤◌, ◌≡◌, refl, true, false, some, [], ◌∷◌, arith, eqb,
  ltb, Bool-cases, inl, inr, Text, to_dec, to_hex4, dec_digits, hex_digit, digit_value,
  parse_digits, parse_radix, ap, ◌∙◌, ◌≢◌,
}

digit_value-dec : (d : ℕ) → d < 10 → digit_value 10 (b'0' + d) ≡ some d
unfolding digit_value
digit_value-dec d h = ground arith

digit_value-hex : (d : ℕ) → d < 16 → digit_value 16 (hex_digit d) ≡ some d
unfolding digit_value hex_digit
digit_value-hex d h = ground arith

-- One digit read.
parse_digits-step :
    (radix limit a c v : ℕ) (s : Text)
    → digit_value radix c ≡ some v
    → a * radix + v < limit
    → parse_digits radix limit a (c ∷ s) ≡ parse_digits radix limit (a * radix + v) s
unfolding parse_digits
parse_digits-step radix limit a c v s h k = ground arith

parse-dec_digits :
    (f n limit : ℕ) (acc : Text)
    → n < f
    → n < limit
    → parse_digits 10 limit 0 (dec_digits f n acc) ≡ parse_digits 10 limit n acc
unfolding dec_digits
parse-dec_digits zero n limit acc h k = elim h [ ]
parse-dec_digits (suc f) n limit acc h k = elim (Bool-cases (ltb n 10)) [
  | inl e ↦
      let small : n < 10 = ground arith in
      rw e (
        parse_digits-step 10 limit 0 (b'0' + n) n acc (digit_value-dec n small) (omega arith)
        ∙ ap (λ (t : ℕ). parse_digits 10 limit t acc) (omega arith))
  | inr e ↦
      let large : 10 ≤ n = ground arith in
      let q = n / 10 in
      let d = n % 10 in
      let same : q * 10 + d ≡ n = omega arith in
      rw e (
        parse-dec_digits f q limit ((b'0' + d) ∷ acc) (omega arith) (omega arith)
        ∙ parse_digits-step 10 limit q (b'0' + d) d acc (digit_value-dec d (omega arith))
            (omega arith)
        ∙ ap (λ (t : ℕ). parse_digits 10 limit t acc) same)
]

plus_no_digit :
    (limit c : ℕ) (s : Text) {n : ℕ}
    → parse_digits 10 limit 0 (c ∷ s) ≡ some n
    → eqb c b'+' ≡ true
    → ⊥
unfolding parse_digits digit_value
plus_no_digit limit c s h e = ground arith

-- What `dec_digits` prints is never empty, and its first byte is no sign.
parse_radix-digits :
    (limit : ℕ) (s : Text) {n : ℕ}
    → parse_digits 10 limit 0 s ≡ some n
    → s ≢ []
    → parse_radix 10 limit s ≡ some n
unfolding parse_radix
parse_radix-digits limit [] h ne = absurd (ne refl)
parse_radix-digits limit (c ∷ []) h ne = h
parse_radix-digits limit (c ∷ d ∷ s) h ne = elim (Bool-cases (eqb c b'+')) [
  | inl e ↦ absurd (plus_no_digit limit c (d ∷ s) h e)
  | inr e ↦ rw e h
]

dec_digits-ne : (f n : ℕ) (acc : Text) → n < f → dec_digits f n acc ≢ []
unfolding dec_digits
dec_digits-ne zero n acc h = elim h [ ]
dec_digits-ne (suc f) n acc h = ground (arith, dec_digits-ne f (n / 10) ((b'0' + n % 10) ∷ acc))

-- A decimal number reads back as itself, below the limit.
pub parse-to_dec : (n limit : ℕ) → n < limit → parse_radix 10 limit (to_dec n) ≡ some n
unfolding to_dec parse_digits
parse-to_dec n limit h =
    parse_radix-digits limit (dec_digits (suc n) n [])
      (parse-dec_digits (suc n) n limit [] (omega arith) h)
      (dec_digits-ne (suc n) n [] (omega arith))

hex_digit_no_plus : (d : ℕ) → d < 16 → eqb (hex_digit d) b'+' ≡ false
unfolding hex_digit
hex_digit_no_plus d h = ground arith

parse_four :
    (a b c d : ℕ)
    → a < 16
    → b < 16
    → c < 16
    → d < 16
    → parse_digits 16 65536 0 (hex_digit a ∷ hex_digit b ∷ hex_digit c ∷ hex_digit d ∷ [])
      ≡ some (((a * 16 + b) * 16 + c) * 16 + d)
parse_four a b c d ha hb hc hd =
    parse_digits-step 16 65536 0 (hex_digit a) a _ (digit_value-hex a ha) (omega arith)
    ∙ parse_digits-step 16 65536 (0 * 16 + a) (hex_digit b) b _ (digit_value-hex b hb) (omega arith)
    ∙ parse_digits-step 16 65536 ((0 * 16 + a) * 16 + b) (hex_digit c) c _ (digit_value-hex c hc)
        (omega arith)
    ∙ parse_digits-step 16 65536 (((0 * 16 + a) * 16 + b) * 16 + c) (hex_digit d) d _
        (digit_value-hex d hd) (omega arith)
    ∙ unfold parse_digits in ap some (omega arith)

parse_radix_no_plus :
    (radix limit c d : ℕ) (s : Text)
    → eqb c b'+' ≡ false
    → parse_radix radix limit (c ∷ d ∷ s) ≡ parse_digits radix limit 0 (c ∷ d ∷ s)
unfolding parse_radix
parse_radix_no_plus radix limit c d s h = rw h refl

-- A u16 printed as four hex digits reads back as itself.
pub parse-to_hex4 : (n : ℕ) → n < 65536 → parse_radix 16 65536 (to_hex4 n) ≡ some n
unfolding to_hex4
parse-to_hex4 n h =
    let a = n / 4096 % 16 in
    let b = n / 256 % 16 in
    let c = n / 16 % 16 in
    let d = n % 16 in
    parse_radix_no_plus 16 65536 (hex_digit a) (hex_digit b) _ (hex_digit_no_plus a (omega arith))
    ∙ parse_four a b c d (omega arith) (omega arith) (omega arith) (omega arith)
    ∙ ap some (omega arith)
