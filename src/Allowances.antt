-- ===== src/Allowances.antt =====
-- crates/plugkill-core/src/allowances.rs: device identities across the buses, and the table of
-- runtime allowances. An `Instant` and a `Duration` are counts of nanoseconds.
pub mod Table
pub mod Warn
pub mod Selector
use plugkill.Prelude.{
  ℕ, ◌+◌, ◌-◌, ◌≡◌, refl, Bool, true, false, not, ◌&&◌, Option, none, some, List, [], ◌∷◌, ◌++◌,
  arith, ltb, leb, if◌then◌else◌, ◌==◌, Eq, nat_eq, list_eq, length, filter, Text, codes, to_dec,
  to_hex4,
}
use plugkill.Edid.{EdidId, edid_id_eq}
use plugkill.Usb.{UsbDeviceId, usb_device_id_eq}
use plugkill.Thunderbolt.{ThunderboltDeviceId, thunderbolt_device_id_eq}
use plugkill.SdCard.{SdCardDeviceId, sd_card_device_id_eq}

pub data DeviceRef : Type 0 where
  usb : UsbDeviceId → DeviceRef
  thunderbolt : ThunderboltDeviceId → DeviceRef
  sd_card : SdCardDeviceId → DeviceRef
  pci : Text → DeviceRef
  display : EdidId → DeviceRef

-- `derive(PartialEq)`
unfoldable pub device_ref_beq : DeviceRef → DeviceRef → Bool
device_ref_beq (usb a) (usb b) = a == b
device_ref_beq (thunderbolt a) (thunderbolt b) = a == b
device_ref_beq (sd_card a) (sd_card b) = a == b
device_ref_beq (pci a) (pci b) = a == b
device_ref_beq (display a) (display b) = a == b
device_ref_beq _ _ = false

pub device_ref_beq_refl : (a : DeviceRef) → device_ref_beq a a ≡ true
unfolding device_ref_beq
device_ref_beq_refl (usb a) = usb_device_id_eq.eq_refl a
device_ref_beq_refl (thunderbolt a) = thunderbolt_device_id_eq.eq_refl a
device_ref_beq_refl (sd_card a) = sd_card_device_id_eq.eq_refl a
device_ref_beq_refl (pci a) = (list_eq {A = ℕ}).eq_refl a
device_ref_beq_refl (display a) = edid_id_eq.eq_refl a

pub device_ref_beq_sym : (a b : DeviceRef) → device_ref_beq a b ≡ true → device_ref_beq b a ≡ true
unfolding device_ref_beq
device_ref_beq_sym (usb a) (usb b) h = usb_device_id_eq.eq_sym a b h
device_ref_beq_sym (thunderbolt a) (thunderbolt b) h = thunderbolt_device_id_eq.eq_sym a b h
device_ref_beq_sym (sd_card a) (sd_card b) h = sd_card_device_id_eq.eq_sym a b h
device_ref_beq_sym (pci a) (pci b) h = (list_eq {A = ℕ}).eq_sym a b h
device_ref_beq_sym (display a) (display b) h = edid_id_eq.eq_sym a b h
device_ref_beq_sym _ _ h = ground arith

pub device_ref_beq_trans :
    (a b c : DeviceRef)
    → device_ref_beq a b ≡ true
    → device_ref_beq b c ≡ true
    → device_ref_beq a c ≡ true
unfolding device_ref_beq
device_ref_beq_trans (usb a) (usb b) (usb c) h k = usb_device_id_eq.eq_trans a b c h k
device_ref_beq_trans (thunderbolt a) (thunderbolt b) (thunderbolt c) h k =
    thunderbolt_device_id_eq.eq_trans a b c h k
device_ref_beq_trans (sd_card a) (sd_card b) (sd_card c) h k =
    sd_card_device_id_eq.eq_trans a b c h k
device_ref_beq_trans (pci a) (pci b) (pci c) h k = (list_eq {A = ℕ}).eq_trans a b c h k
device_ref_beq_trans (display a) (display b) (display c) h k = edid_id_eq.eq_trans a b c h k
device_ref_beq_trans _ _ _ h k = ground arith

instance abbrev pub device_ref_eq : Eq DeviceRef
device_ref_eq = record {
  eq = device_ref_beq;
  eq_refl = device_ref_beq_refl;
  eq_sym = device_ref_beq_sym;
  eq_trans = device_ref_beq_trans;
}

-- `DeviceRef::bus`
unfoldable pub bus : DeviceRef → Text
bus (usb id) = codes "usb"
bus (thunderbolt id) = codes "thunderbolt"
bus (sd_card id) = codes "sdcard"
bus (pci sel) = codes "pci"
bus (display id) = codes "display"

-- `EdidId::selector`
unfoldable pub edid_selector : EdidId → Text
unfolding to_dec to_hex4
edid_selector id = elim id.serial [
  | some s ↦ id.mfg ++ b':' ∷ (to_hex4 id.product ++ b':' ∷ to_dec s)
  | none ↦ id.mfg ++ b':' ∷ to_hex4 id.product
]

-- `DeviceRef::selector`, which is its `Display`
unfoldable pub selector : DeviceRef → Text
unfolding edid_selector
selector (usb id) = codes "usb:" ++ (id.vendor_id ++ b':' ∷ id.product_id)
selector (thunderbolt id) = codes "thunderbolt:" ++ id.unique_id
selector (sd_card id) = codes "sdcard:" ++ id.serial
selector (pci sel) = codes "pci:" ++ sel
selector (display id) = codes "display:" ++ edid_selector id

pub data Grant : Type 0 where
  paired promoted : Grant

pub record Allowance : Type 0 where
  pub id : DeviceRef
  pub expires_at : Option ℕ
  pub granted_by : Grant
  pub granted_at : ℕ
  pub name : Option Text
  pub warned : Bool

-- `ttl.map(|d| now + d)`
abbrev expiry : ℕ → Option ℕ → Option ℕ
expiry now none = none
expiry now (some d) = some (now + d)

-- `Allowance::new`
unfoldable pub new_allowance : DeviceRef → Grant → ℕ → Option ℕ → Allowance
new_allowance id granted_by now ttl = record {
  id = id;
  expires_at = expiry now ttl;
  granted_by = granted_by;
  granted_at = now;
  name = none;
  warned = false;
}

unfoldable pub with_name : Allowance → Option Text → Allowance
with_name a name = record a { name = name }

unfoldable pub is_active : Allowance → ℕ → Bool
is_active a now = elim a.expires_at [ none ↦ true | some e ↦ ltb now e ]

-- `now.saturating_duration_since(granted_at)`
unfoldable pub age : Allowance → ℕ → ℕ
age a now = now - a.granted_at

unfoldable pub expires_in : Allowance → ℕ → Option ℕ
expires_in a now = elim a.expires_at [ none ↦ none | some e ↦ some (e - now) ]

pub record AllowanceTable : Type 0 where
  pub entries : List Allowance

unfoldable pub new_table : AllowanceTable
new_table = record { entries = [] }

-- `position` and `Vec::remove`: the first entry for `id`, and the others in their order.
unfoldable pub remove_entry : DeviceRef → List Allowance → Option Allowance × List Allowance
remove_entry id [] = (none, [])
remove_entry id (a ∷ rest) =
    let (gone, left) = remove_entry id rest in
    if a.id == id then (some a, rest) else (gone, a ∷ left)

unfoldable pub remove : AllowanceTable → DeviceRef → Option Allowance × AllowanceTable
unfolding remove_entry
remove t id = let (gone, left) = remove_entry id t.entries in (gone, record { entries = left })

unfoldable pub add : AllowanceTable → Allowance → Option Allowance × AllowanceTable
unfolding remove
add t allowance =
    let (old, u) = remove t allowance.id in (old, record { entries = u.entries ++ allowance ∷ [] })

unfoldable pub clear : AllowanceTable → ℕ × AllowanceTable
clear t = (length t.entries, record { entries = [] })

-- What was dropped, and the table with the rest: `partition`.
unfoldable pub sweep : AllowanceTable → ℕ → List Allowance × AllowanceTable
unfolding filter is_active
sweep t now = (
  filter (λ a. not (is_active a now)) t.entries,
  record { entries = filter (λ a. is_active a now) t.entries },
)

unfoldable pub active : AllowanceTable → ℕ → List Allowance
unfolding filter is_active
active t now = filter (λ a. is_active a now) t.entries

-- The condition of the loop in `due_to_warn`: the time left, where a warning is due.
unfoldable pub due_in : Allowance → ℕ → ℕ → Option ℕ
unfolding expires_in
due_in a now ahead = elim (expires_in a now) [
  | none ↦ none
  | some left ↦ if not a.warned && leb left ahead then some left else none
]

unfoldable pub due_entries : ℕ → ℕ → List Allowance → List (Text × ℕ) × List Allowance
due_entries now ahead [] = ([], [])
due_entries now ahead (a ∷ rest) =
    let (due, others) = due_entries now ahead rest in
    elim (due_in a now ahead) [
      | none ↦ (due, a ∷ others)
      | some left ↦ ((selector a.id, left) ∷ due, record a { warned = true } ∷ others)
    ]

unfoldable pub due_to_warn : AllowanceTable → ℕ → ℕ → List (Text × ℕ) × AllowanceTable
unfolding due_entries
due_to_warn t now ahead =
    let (due, others) = due_entries now ahead t.entries in (due, record { entries = others })
