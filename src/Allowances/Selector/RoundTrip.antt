-- ===== src/Allowances/Selector/RoundTrip.antt =====
-- `DeviceRef::selector` and `FromStr for DeviceRef` undo one another.
mod Digits
use plugkill.Allowances.Selector.RoundTrip.Digits.{parse-to_dec, parse-to_hex4}
use plugkill.Prelude.{
  ◌∙◌, ◌/◌, ◌%◌, ◌≤◌, is_ascii_digit, Option-cases, Bool-cases, inl, inr, ℕ, zero, suc, ◌+◌, ◌<◌,
  ◌^◌, ◌≡◌, refl, Bool, true, false, not, ◌&&◌, Option, none, some, List, [], ◌∷◌, ◌++◌, map, arith,
  eqb, leb, if◌then◌else◌, length, every, Text, codes, is_empty, is_ascii_hexdigit, is_ascii_digit,
  is_ascii_uppercase, to_ascii_lowercase, split, split_once, Result, ok, err, ap, list_beq, to_dec,
  to_hex4, dec_digits, hex_digit,
}
use plugkill.Edid.{EdidId}
use plugkill.Usb.{UsbDeviceId}
use plugkill.Allowances.{
  DeviceRef, usb, thunderbolt, sd_card, pci, display, selector, edid_selector,
}
use plugkill.Allowances.Selector.{
  is_pci_selector, usb_hex, parse_usb, parse_serial, parse_product, parse_fields, parse_display,
  parse_bus, from_str,
}

abbrev no_colon : Text → Bool
no_colon [] = true
no_colon (c ∷ s) = not (eqb c b':') && no_colon s

split_once-append : (s t : Text) → no_colon s ≡ true → split_once b':' (s ++ b':' ∷ t) ≡ some (s, t)
unfolding split_once
split_once-append [] t h = refl
split_once-append (c ∷ s) t h = ground (arith, split_once-append s t)

split-append : (s t : Text) → no_colon s ≡ true → split b':' (s ++ b':' ∷ t) ≡ s ∷ split b':' t
unfolding split
split-append [] t h = refl
split-append (c ∷ s) t h = ground (arith, split-append s t)

split_self : (s : Text) → no_colon s ≡ true → split b':' s ≡ s ∷ []
unfolding split
split_self [] h = refl
split_self (c ∷ s) h = ground (arith, split_self s)

hex-no_colon : (s : Text) → every is_ascii_hexdigit s ≡ true → no_colon s ≡ true
unfolding every is_ascii_hexdigit
hex-no_colon [] h = refl
hex-no_colon (c ∷ s) h = ground (arith, hex-no_colon s)

upper-no_colon : (s : Text) → every is_ascii_uppercase s ≡ true → no_colon s ≡ true
unfolding every is_ascii_uppercase
upper-no_colon [] h = refl
upper-no_colon (c ∷ s) h = ground (arith, upper-no_colon s)

hex4-no_colon : (n : ℕ) → no_colon (to_hex4 n) ≡ true
unfolding to_hex4
hex4-no_colon n = ground arith

dec_digits-no_colon :
    (f n : ℕ) (acc : Text) → no_colon acc ≡ true → no_colon (dec_digits f n acc) ≡ true
unfolding dec_digits
dec_digits-no_colon zero n acc h = h
dec_digits-no_colon (suc f) n acc h =
    ground (arith, dec_digits-no_colon f (n / 10) ((b'0' + n % 10) ∷ acc))

to_dec-no_colon : (n : ℕ) → no_colon (to_dec n) ≡ true
unfolding to_dec
to_dec-no_colon n = dec_digits-no_colon (suc n) n [] refl

-- A USB id as sysfs prints it: one to four hex digits in lower case.
abbrev pub IsUsbId : Text → Type 0
IsUsbId s =
    (is_empty s ≡ false)
    × (length s ≤ 4)
    × (every is_ascii_hexdigit s ≡ true)
    × (map to_ascii_lowercase s ≡ s)

usb_hex-IsUsbId : (s what : Text) → IsUsbId s → usb_hex s what ≡ ok s
unfolding usb_hex
usb_hex-IsUsbId s what (e, l, x, m) = ground arith

-- What `selector` prints of an identity that comes from a device of that bus.
abbrev pub IsSelectable : DeviceRef → Type 0
IsSelectable (usb id) = IsUsbId id.vendor_id × IsUsbId id.product_id
IsSelectable (thunderbolt id) = is_empty id.unique_id ≡ false
IsSelectable (sd_card id) = is_empty id.serial ≡ false
IsSelectable (pci sel) = is_pci_selector sel ≡ true
IsSelectable (display id) =
    (length id.mfg ≡ 3)
    × (every is_ascii_uppercase id.mfg ≡ true)
    × (id.product < 2 ^ 16)
    × ((s : ℕ) → id.serial ≡ some s → s < 2 ^ 32)

-- The identity that a selector carries: all but a monitor's name.
abbrev pub nameless : DeviceRef → DeviceRef
nameless (display id) = display (record id { name = [] })
nameless r = r

from_str-bus :
    (bus rest : Text)
    → no_colon bus ≡ true
    → from_str (bus ++ b':' ∷ rest) ≡ parse_bus (bus ++ b':' ∷ rest) bus rest
unfolding from_str
from_str-bus bus rest h = ground (arith, split_once-append bus rest h)

parse_usb-IsUsbId :
    (s v p : Text)
    → IsUsbId v
    → IsUsbId p
    → parse_usb s (v ++ b':' ∷ p) ≡ ok (usb (record { vendor_id = v; product_id = p }))
unfolding parse_usb
parse_usb-IsUsbId s v p hv hp = ground (
  arith,
  split_once-append v p (hex-no_colon v hv.2),
  usb_hex-IsUsbId v (codes "vendor") hv,
  usb_hex-IsUsbId p (codes "product") hp,
)

parse_serial-none : (rest : Text) → parse_serial rest [] ≡ ok none
unfolding parse_serial
parse_serial-none rest = refl

parse_serial-some :
    (rest : Text) (n : ℕ) → n < 2 ^ 32 → parse_serial rest (to_dec n ∷ []) ≡ ok (some n)
unfolding parse_serial
parse_serial-some rest n h = ground (arith, parse-to_dec n (2 ^ 32) h)

parse_product-serial :
    (rest mfg : Text) (product : ℕ) (more : List Text) (serial : Option ℕ)
    → product < 2 ^ 16
    → parse_serial rest more ≡ ok serial
    → parse_product rest mfg (to_hex4 product ∷ more)
      ≡ ok (record { mfg = mfg; product = product; serial = serial; name = [] })
unfolding parse_product
parse_product-serial rest mfg product more serial h e = ground (arith, parse-to_hex4 product h)

parse_fields-IsSelectable :
    (rest mfg : Text) (product : ℕ) (more : List Text) (serial : Option ℕ)
    → length mfg ≡ 3
    → every is_ascii_uppercase mfg ≡ true
    → product < 2 ^ 16
    → parse_serial rest more ≡ ok serial
    → parse_fields rest (mfg ∷ to_hex4 product ∷ more)
      ≡ ok (record { mfg = mfg; product = product; serial = serial; name = [] })
unfolding parse_fields
parse_fields-IsSelectable rest mfg product more serial l u h e =
    ground (arith, parse_product-serial rest mfg product more serial h e)

-- The fields of a printed identity.
split-edid_selector :
    (id : EdidId)
    → no_colon id.mfg ≡ true
    → split b':' (edid_selector id)
      ≡ id.mfg ∷ to_hex4 id.product ∷ elim id.serial [ none ↦ [] | some s ↦ to_dec s ∷ [] ]
unfolding edid_selector
split-edid_selector id h = elim (Option-cases id.serial) [
  | inl e ↦ ground (
    arith,
    split-append id.mfg (to_hex4 id.product) h,
    split_self (to_hex4 id.product) (hex4-no_colon id.product),
  )
  | inr (n, e) ↦ ground (
    arith,
    split-append id.mfg (to_hex4 id.product ++ b':' ∷ to_dec n) h,
    split-append (to_hex4 id.product) (to_dec n) (hex4-no_colon id.product),
    split_self (to_dec n) (to_dec-no_colon n),
  )
]

parse_display-edid_selector :
    (id : EdidId)
    → IsSelectable (display id)
    → parse_display (edid_selector id) ≡ ok (record id { name = [] })
unfolding parse_display
parse_display-edid_selector id (l, u, p, q) =
    let fields = split-edid_selector id (upper-no_colon id.mfg u) in
    elim (Option-cases id.serial) [
      | inl e ↦ ground (
        arith,
        fields,
        parse_serial-none (edid_selector id),
        parse_fields-IsSelectable (edid_selector id) id.mfg id.product [] none l u p
            (parse_serial-none (edid_selector id)),
      )
      | inr (n, e) ↦ ground (
        arith,
        fields,
        parse_fields-IsSelectable (edid_selector id) id.mfg id.product (to_dec n ∷ []) (some n) l u
            p (parse_serial-some (edid_selector id) n (q n e)),
      )
    ]

-- Parsing what `selector` prints gives the device back, without a monitor's name.
pub from_str-selector :
    (id : DeviceRef) → IsSelectable id → from_str (selector id) ≡ ok (nameless id)
unfolding selector parse_bus list_beq
from_str-selector (usb id) h =
    from_str-bus (codes "usb") _ refl
    ∙ parse_usb-IsUsbId (selector (usb id)) id.vendor_id id.product_id h.0 h.1
from_str-selector (thunderbolt id) h = from_str-bus (codes "thunderbolt") _ refl ∙ ground arith
from_str-selector (sd_card id) h = from_str-bus (codes "sdcard") _ refl ∙ ground arith
from_str-selector (pci sel) h = from_str-bus (codes "pci") _ refl ∙ ground arith
from_str-selector (display id) h =
    from_str-bus (codes "display") _ refl ∙ ground (arith, parse_display-edid_selector id h)
