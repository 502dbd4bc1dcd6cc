-- ===== src/Allowances/Selector.antt =====
-- The selectors of crates/plugkill-core/src/allowances.rs: `FromStr for DeviceRef`.
pub mod RoundTrip
use plugkill.Prelude.{
  ℕ, zero, suc, ◌^◌, ◌≡◌, refl, Bool, not, ◌&&◌, ◌||◌, Option, none, some, List, [], ◌∷◌, ◌++◌, map,
  ltb, eqb, if◌then◌else◌, ◌==◌, nat_eq, list_eq, list_beq, length, every, Text, codes, is_empty,
  is_ascii_hexdigit, is_ascii_uppercase, to_ascii_lowercase, split, split_once, parse_radix, Result,
  ok, err, ◌>>=◌,
}
use plugkill.Edid.{EdidId}
use plugkill.Allowances.{DeviceRef, usb, thunderbolt, sd_card, pci, display}

-- `b[i]`, where a byte out of range passes no test
abbrev pub byte_at : Text → ℕ → ℕ
byte_at [] i = 0
byte_at (c ∷ s) zero = c
byte_at (c ∷ s) (suc i) = byte_at s i

unfoldable pub is_pci_selector : Text → Bool
unfolding every is_ascii_hexdigit
is_pci_selector b =
    eqb (length b) 12
    && eqb (byte_at b 4) b':'
    && eqb (byte_at b 7) b':'
    && eqb (byte_at b 10) b'.'
    && every (λ i. is_ascii_hexdigit (byte_at b i)) (0 ∷ 1 ∷ 2 ∷ 3 ∷ 5 ∷ 6 ∷ 8 ∷ 9 ∷ 11 ∷ [])

unfoldable pub usb_hex : Text → Text → Result Text
unfolding every is_ascii_hexdigit to_ascii_lowercase
usb_hex part what =
    if is_empty part || ltb 4 (length part) || not (every is_ascii_hexdigit part)
    then err (codes "'" ++ (part ++ (codes "' is not a USB " ++ (what ++ codes " id"))))
    else ok (map to_ascii_lowercase part)

-- `s.parse::<u32>()` on the third field, where there is one, and the refusal of a fourth.
unfoldable pub parse_serial : Text → List Text → Result (Option ℕ)
unfolding parse_radix
parse_serial rest [] = ok none
parse_serial rest (s ∷ more) = elim (parse_radix 10 (2 ^ 32) s) [
  | none ↦ err (codes "'" ++ (s ++ codes "' is not a monitor serial"))
  | some n ↦
      if not (is_empty more)
      then err (codes "'" ++ (rest ++ codes "' has more fields than a display identity"))
      else ok (some n)
]

abbrev pub no_product : Text → Result EdidId
no_product rest = err (codes "'" ++ (rest ++ codes "' has no hex product code"))

-- The fields of a display identity after the manufacturer.
unfoldable pub parse_product : Text → Text → List Text → Result EdidId
unfolding parse_serial
parse_product rest mfg [] = no_product rest
parse_product rest mfg (p ∷ more) = elim (parse_radix 16 (2 ^ 16) p) [
  | none ↦ no_product rest
  | some product ↦ do
    serial ← parse_serial rest more
    ok (record { mfg = mfg; product = product; serial = serial; name = [] })
]

unfoldable pub parse_fields : Text → List Text → Result EdidId
unfolding parse_product every is_ascii_uppercase
parse_fields rest [] = err (codes "'' is not a three letter manufacturer code")
parse_fields rest (mfg ∷ more) =
    if not (eqb (length mfg) 3) || not (every is_ascii_uppercase mfg)
    then err (codes "'" ++ (mfg ++ codes "' is not a three letter manufacturer code"))
    else parse_product rest mfg more

unfoldable pub parse_display : Text → Result EdidId
unfolding parse_fields split
parse_display rest = parse_fields rest (split b':' rest)

-- The `usb` arm, on what stands behind the bus.
unfoldable pub parse_usb : Text → Text → Result DeviceRef
unfolding split_once usb_hex
parse_usb s rest = elim (split_once b':' rest) [
  | none ↦ err (codes "'" ++ (s ++ codes "' is not usb:<vendor>:<product>"))
  | some (v, p) ↦ do
    vendor ← usb_hex v (codes "vendor")
    product ← usb_hex p (codes "product")
    ok (usb (record { vendor_id = vendor; product_id = product }))
]

-- The `match` on the bus; the arms stand in the source's order.
unfoldable pub parse_bus : Text → Text → Text → Result DeviceRef
unfolding parse_usb parse_display is_pci_selector
parse_bus s bus rest =
    if bus == codes "usb"
    then parse_usb s rest
    else if bus == codes "thunderbolt" && not (is_empty rest)
    then ok (thunderbolt (record { unique_id = rest }))
    else if bus == codes "sdcard" && not (is_empty rest)
    then ok (sd_card (record { serial = rest }))
    else if bus == codes "pci" && is_pci_selector rest
    then ok (pci rest)
    else if bus == codes "pci"
    then err (codes "'" ++ (rest ++ codes "' is not a PCI selector like 0000:01:00.0"))
    else if bus == codes "display"
    then (do id ← parse_display rest; ok (display id))
    else if bus == codes "power" || bus == codes "network" || bus == codes "lid"
    then err (
        bus
        ++ codes
            " violations are events rather than devices, so there is nothing to allow; use disarm for them")
    else if bus == codes "thunderbolt" || bus == codes "sdcard"
    then err (codes "selector '" ++ (s ++ codes "' has no identity"))
    else err (codes "unknown bus '" ++ (bus ++ (codes "' in selector '" ++ (s ++ codes "'"))))

-- `DeviceRef::from_str`
unfoldable pub from_str : Text → Result DeviceRef
unfolding parse_bus split_once
from_str s = elim (split_once b':' s) [
  | none ↦ err (codes "selector '" ++ (s ++ codes "' is not <bus>:<identity>"))
  | some (bus, rest) ↦ parse_bus s bus rest
]

parse_example :
    from_str (codes "usb:1D6B:0002")
    ≡ ok (usb (record { vendor_id = codes "1d6b"; product_id = codes "0002" }))
unfolding from_str list_beq
parse_example = refl

parse_display_example :
    from_str (codes "display:SAM:772d:811021873")
    ≡ ok (
        display (record { mfg = codes "SAM"; product = 30509; serial = some 811021873; name = [] }))
unfolding from_str list_beq
parse_display_example = refl
