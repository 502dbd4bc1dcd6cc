-- ===== src/Prelude/Numbers.antt =====
-- Rust's number formatting and `str::parse`, and `Duration` as nanoseconds.
use Prim.Native.Nat.{ℕ, zero, suc, ◌+◌, ◌-◌, ◌*◌, ◌/◌, ◌%◌}
use mathlib.Core.Bool.{◌&&◌}
use mathlib.Core.Option.{Option, none, some}
use mathlib.Core.List.{[], ◌∷◌}
use plugkill.Prelude.Tests.{ltb, leb, eqb, if◌then◌else◌}
use plugkill.Prelude.Strings.{Text}

-- `Duration::from_secs`, `as_secs` and `as_millis`, over a count of nanoseconds.
unfoldable pub from_secs : ℕ → ℕ
from_secs s = s * 1_000_000_000

unfoldable pub as_secs : ℕ → ℕ
as_secs d = d / 1_000_000_000

unfoldable pub as_millis : ℕ → ℕ
as_millis d = d / 1_000_000

-- `u128::div_ceil`
unfoldable pub div_ceil : ℕ → ℕ → ℕ
div_ceil a b = (a + b - 1) / b

-- `{n}`: the decimal digits, by fuel.
unfoldable pub dec_digits : ℕ → ℕ → Text → Text
dec_digits zero n acc = acc
dec_digits (suc f) n acc =
    let rest = dec_digits f (n / 10) ((b'0' + n % 10) ∷ acc) in
    if ltb n 10 then (b'0' + n) ∷ acc else rest

unfoldable pub to_dec : ℕ → Text
unfolding dec_digits
to_dec n = dec_digits (suc n) n []

unfoldable pub hex_digit : ℕ → ℕ
hex_digit d = if ltb d 10 then b'0' + d else b'a' + (d - 10)

-- `{n:04x}` of a u16
unfoldable pub to_hex4 : ℕ → Text
unfolding hex_digit
to_hex4 n =
    hex_digit (n / 4096 % 16)
    ∷ hex_digit (n / 256 % 16)
    ∷ hex_digit (n / 16 % 16)
    ∷ hex_digit (n % 16)
    ∷ []

-- The value of one byte as a digit: `char::to_digit`, below the radix.
unfoldable pub digit_value : ℕ → ℕ → Option ℕ
digit_value radix c =
    let v =
      if leb b'0' c && leb c b'9'
      then c - b'0'
      else if leb b'a' c && leb c b'z'
      then c - b'a' + 10
      else if leb b'A' c && leb c b'Z'
      then c - b'A' + 10
      else radix in
    if ltb v radix then some v else none

-- The digits of a number below `limit`; a byte that is no digit, or a value out of range, fails.
unfoldable pub parse_digits : ℕ → ℕ → ℕ → Text → Option ℕ
unfolding digit_value
parse_digits radix limit acc [] = some acc
parse_digits radix limit acc (c ∷ s) = elim (digit_value radix c) [
  | none ↦ none
  | some v ↦
      if ltb (acc * radix + v) limit then parse_digits radix limit (acc * radix + v) s else none
]

-- `from_str_radix` of an unsigned type: an optional `+`, then at least one digit.
unfoldable pub parse_radix : ℕ → ℕ → Text → Option ℕ
unfolding parse_digits
parse_radix radix limit [] = none
parse_radix radix limit (c ∷ []) = parse_digits radix limit 0 (c ∷ [])
parse_radix radix limit (c ∷ d ∷ s) =
    if eqb c b'+'
    then parse_digits radix limit 0 (d ∷ s)
    else parse_digits radix limit 0 (c ∷ d ∷ s)
