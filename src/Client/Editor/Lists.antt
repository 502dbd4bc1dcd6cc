-- ===== src/Client/Editor/Lists.antt =====
-- Adding an entry to a table of the editor and dropping it again.
use plugkill.Prelude.{
  ℕ, ◌≡◌, refl, arith, true, false, not, none, some, List, [], ◌∷◌, ◌++◌, map, any, filter, ◌==◌,
  list_eq, nat_eq, Text, codes, split_once, eqb, eqb→eq, Result, ok, err, Bool-cases, Option-cases,
  Result-cases, inl, inr, ap, text_eq_refl, ◌≢◌, ◌∙◌,
}
use plugkill.Config.{Config, WhitelistEntry, ThunderboltWhitelistEntry, SdCardWhitelistEntry}
use plugkill.Allowances.{DeviceRef}
use plugkill.Allowances.Selector.{from_str}
use plugkill.Client.Editor.{
  ListKind, usb, thunderbolt, sd_card, pci, network, display, usb_entry, usb_row, list_entries,
  is_listed, fields, push_entry, add_normal, list_add, list_remove, normalise, normalise_trimmed,
  stored_pair, trim,
}

-- `split_once` cuts at the byte it is given.
split_once-join : (c : ℕ) (s l r : Text) → split_once c s ≡ some (l, r) → l ++ c ∷ r ≡ s
unfolding split_once
split_once-join c [] l r h = ground arith
split_once-join c (b ∷ s) l r h = elim (Bool-cases (eqb b c)) [
  | inl e ↦
      let same : b ≡ c = omega (arith, eqb→eq b c e) in
      let left : l ≡ [] = ground arith in
      let right : r ≡ s = ground arith in rw (left, right, same) refl
  | inr e ↦ elim (Option-cases (split_once c s)) [
    | inl n ↦ ground arith
    | inr ((k, m), n) ↦
        let left : l ≡ b ∷ k = ground arith in
        let right : r ≡ m = ground arith in
        rw (left, right) (ap (λ t. b ∷ t) (split_once-join c s k m n))
  ]
]

split_once-found : (c : ℕ) (s t : Text) → split_once c (s ++ c ∷ t) ≢ none
unfolding split_once
split_once-found c [] t h = ground arith
split_once-found c (b ∷ s) t h = ground (arith, split_once-found c s t)

module _ {A : Type 0} (key : A → Text) where
  drop_last :
      (entry : Text) (xs : List A) (x : A)
      → any (λ a. key a == entry) xs ≡ false
      → (key x == entry) ≡ true
      → filter (λ a. not (key a == entry)) (xs ++ x ∷ []) ≡ xs
  unfolding any filter
  drop_last entry [] x h e = ground arith
  drop_last entry (a ∷ xs) x h e = let rest = drop_last entry xs x (ground arith) e in ground arith

  any-rows :
      (label : A → Text) (entry : Text) (xs : List A)
      → any (λ (row : Text × Text). row.0 == entry) (map (λ a. (key a, label a)) xs)
        ≡ any (λ a. key a == entry) xs
  unfolding any
  any-rows label entry [] = refl
  any-rows label entry (a ∷ xs) = ground (arith, any-rows label entry xs)

  drop_pushed :
      (label : A → Text) (entry : Text) (xs : List A) (x : A)
      → any (λ (row : Text × Text). row.0 == entry) (map (λ a. (key a, label a)) xs) ≡ false
      → (key x == entry) ≡ true
      → filter (λ a. not (key a == entry)) (xs ++ x ∷ []) ≡ xs
  drop_pushed label entry xs x h e =
      drop_last entry xs x (ground (arith, any-rows label entry xs)) e

-- A USB entry holds the separator; in the other tables any text is an entry.
abbrev pub IsStored : ListKind → Text → Type 0
IsStored usb entry = split_once b':' entry ≢ none
IsStored _ entry = Unit

fields-join :
    (entry : Text)
    → split_once b':' entry ≢ none
    → (fields entry).0 ++ b':' ∷ (fields entry).1 ≡ entry
fields-join entry s = elim (Option-cases (split_once b':' entry)) [
  | inl e ↦ absurd (s e)
  | inr ((l, r), e) ↦
      let f : fields entry ≡ (l, r) = ground arith in
      ap (λ (p : Text × Text). p.0 ++ b':' ∷ p.1) f ∙ split_once-join b':' entry l r e
]

removes_pushed :
    (config : Config) (kind : ListKind) (entry : Text)
    → IsStored kind entry
    → is_listed config kind entry ≡ false
    → list_remove (push_entry config kind entry) kind entry ≡ config
unfolding is_listed list_entries push_entry list_remove usb_row
removes_pushed config usb entry s h =
    let new : WhitelistEntry = record {
      vendor_id = (fields entry).0;
      product_id = (fields entry).1;
      count = 1;
    } in
    let e : (usb_entry new == entry) ≡ true = rw (fields-join entry s) (text_eq_refl entry) in
    ground
      (arith, drop_pushed usb_entry (λ e. (usb_row e).1) entry config.whitelist.devices new h e)
removes_pushed config thunderbolt entry s h = ground (
  arith,
  drop_pushed (λ (e : ThunderboltWhitelistEntry). e.unique_id)
      (λ (e : ThunderboltWhitelistEntry). e.unique_id) entry config.thunderbolt_whitelist.devices
      (record { unique_id = entry }) h (text_eq_refl entry),
)
removes_pushed config sd_card entry s h = ground (
  arith,
  drop_pushed (λ (e : SdCardWhitelistEntry). e.serial) (λ (e : SdCardWhitelistEntry). e.serial)
      entry config.sdcard_whitelist.devices (record { serial = entry }) h (text_eq_refl entry),
)
removes_pushed config pci entry s h =
    ground
      (arith, drop_pushed (λ s. s) (λ s. s) entry config.pci.ignore entry h (text_eq_refl entry))
removes_pushed config network entry s h = ground (
  arith,
  drop_pushed (λ s. s) (λ s. s) entry config.network.interfaces entry h (text_eq_refl entry),
)
removes_pushed config display entry s h =
    ground (
      arith,
      drop_pushed (λ s. s) (λ s. s) entry config.display.ignore entry h (text_eq_refl entry),
    )

stored_pair-IsStored :
    (text entry : Text) (parsed : Result DeviceRef)
    → stored_pair text parsed ≡ ok entry
    → IsStored usb entry
unfolding stored_pair
stored_pair-IsStored text entry (ok (DeviceRef.usb id)) h =
    let same : entry ≡ id.vendor_id ++ b':' ∷ id.product_id = ground arith in
    rw same (split_once-found b':' id.vendor_id id.product_id)
stored_pair-IsStored text entry (ok (DeviceRef.thunderbolt id)) h = ground arith
stored_pair-IsStored text entry (ok (DeviceRef.sd_card id)) h = ground arith
stored_pair-IsStored text entry (ok (DeviceRef.pci id)) h = ground arith
stored_pair-IsStored text entry (ok (DeviceRef.display id)) h = ground arith
stored_pair-IsStored text entry (err e) h = ground arith

normalise-IsStored :
    (kind : ListKind) (text entry : Text) → normalise kind text ≡ ok entry → IsStored kind entry
unfolding normalise normalise_trimmed
normalise-IsStored usb text entry h =
    let parsed = from_str (codes "usb:" ++ trim text) in
    stored_pair-IsStored (trim text) entry parsed (ground arith)
normalise-IsStored thunderbolt text entry h = tt
normalise-IsStored sd_card text entry h = tt
normalise-IsStored pci text entry h = tt
normalise-IsStored network text entry h = tt
normalise-IsStored display text entry h = tt

-- Dropping the entry that an addition stored gives the configuration from before the addition,
-- in each of the six tables.
pub list_remove-list_add :
    (config config' : Config) (kind : ListKind) (text entry : Text)
    → list_add config kind text ≡ ok (entry, config')
    → list_remove config' kind entry ≡ config
unfolding list_add add_normal
list_remove-list_add config config' kind text entry h = elim (Result-cases (normalise kind text)) [
  | inl (x, e) ↦ ground arith
  | inr (stored, e) ↦
      let r = removes_pushed config kind stored (normalise-IsStored kind text stored e) in
      elim (Bool-cases (is_listed config kind stored)) [
        | inl l ↦ ground arith
        | inr l ↦ let done = r l in ground arith
      ]
]
