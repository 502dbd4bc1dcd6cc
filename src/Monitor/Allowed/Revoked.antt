-- ===== src/Monitor/Allowed/Revoked.antt =====
-- What an allowance does on the USB bus while it stands, and what its end does.
use plugkill.Prelude.{
  ℕ, ◌+◌, ◌-◌, ◌^◌, ◌<◌, ◌≤◌, ◌≡◌, ◌≢◌, ◌⊎◌, refl, sym, ◌∙◌, arith, ◌==◌, true, false, none, List,
  [], ◌∷◌, All, contains, contains_congr, count, count-entry_add, entry_add, get, get_congr,
  UniqueKeys, filter_map, ltb, length, if◌then◌else◌, list_eq, nat_eq, Bool-cases, inl, inr,
}
use plugkill.Config.{Config}
use plugkill.Allowances.{
  DeviceRef, usb, thunderbolt, sd_card, pci, display, device_ref_beq, device_ref_eq,
}
use plugkill.Usb.{
  UsbDeviceId, DeviceSnapshot, usb_device_id_eq, count_of, saturating_add, detect_changes,
}
use plugkill.Usb.Detect.{IsSnapshot, usb_silence}
use plugkill.Monitor.Allowed.{add_allowed, add_entries, build_usb_whitelist, keep_entry, skip_usb}

-- How often a set of identities names a USB device.
abbrev pub named : List DeviceRef → UsbDeviceId → ℕ
named [] k = 0
named (r ∷ allowed) k = (if r == usb k then 1 else 0) + named allowed k

named-length : (allowed : List DeviceRef) (k : UsbDeviceId) → named allowed k ≤ length allowed
named-length [] k = omega arith
named-length (r ∷ allowed) k = ground (arith, named-length allowed k)

pub contains-named :
    (allowed : List DeviceRef) (k : UsbDeviceId)
    → contains allowed (usb k) ≡ ltb 0 (named allowed k)
unfolding contains
contains-named [] k = ground arith
contains-named (r ∷ allowed) k = ground (arith, contains-named allowed k)

-- The whitelist counts an allowance once.
pub count-add_allowed :
    (allowed : List DeviceRef) (m : List (UsbDeviceId × ℕ)) (k : UsbDeviceId)
    → count m k + length allowed < 2 ^ 32
    → count (add_allowed allowed m) k ≡ count m k + named allowed k
unfolding add_allowed device_ref_beq
count-add_allowed [] m k h = omega arith
count-add_allowed (usb id ∷ allowed) m k h =
    let step = count-entry_add id k 1 m in
    let later = count-add_allowed allowed (entry_add id 1 m) k in
    elim (Bool-cases (id == k)) [
      | inl e ↦
          let more : count (entry_add id 1 m) k ≡ count m k + 1 = ground (arith, step, e) in
          let rest = later (omega arith) in ground (arith, rest, more, e)
      | inr e ↦
          let as_many : count (entry_add id 1 m) k ≡ count m k = ground (arith, step, e) in
          let rest = later (omega arith) in ground (arith, rest, as_many, e)
    ]
count-add_allowed (thunderbolt id ∷ allowed) m k h =
    count-add_allowed allowed m k (omega arith) ∙ omega arith
count-add_allowed (sd_card id ∷ allowed) m k h =
    count-add_allowed allowed m k (omega arith) ∙ omega arith
count-add_allowed (pci id ∷ allowed) m k h =
    count-add_allowed allowed m k (omega arith) ∙ omega arith
count-add_allowed (display id ∷ allowed) m k h =
    count-add_allowed allowed m k (omega arith) ∙ omega arith

get-skip_none :
    (allowed : List DeviceRef) (m : List (UsbDeviceId × ℕ)) (k : UsbDeviceId)
    → get k m ≡ none
    → get k (filter_map (keep_entry allowed) m) ≡ none
unfolding get filter_map keep_entry
get-skip_none allowed [] k h = refl
get-skip_none allowed ((j, c) ∷ m) k h = ground (arith, get-skip_none allowed m k)

-- A fresh baseline has one instance less of what is allowed.
pub count-skip :
    (allowed : List DeviceRef) (m : List (UsbDeviceId × ℕ)) (k : UsbDeviceId)
    → UniqueKeys m
    → count (filter_map (keep_entry allowed) m) k
      ≡ (if contains allowed (usb k) then count m k - 1 else count m k)
unfolding count get filter_map keep_entry device_ref_beq
count-skip allowed [] k u = ground arith
count-skip allowed ((j, c) ∷ m) k u =
    let later = count-skip allowed m k u.1 in
    elim (Bool-cases (j == k)) [
      | inl e ↦
          let alike : contains allowed (usb j) ≡ contains allowed (usb k) =
            contains_congr allowed (usb j) (usb k) e in
          let gone : get k m ≡ none = sym (get_congr j k m e) ∙ u.0 in
          let gone' = get-skip_none allowed m k gone in ground (arith, e, alike, gone, gone')
      | inr e ↦ ground (arith, e, later)
    ]

-- What the baseline keeps of an entry.
skip_entry :
    (allowed : List DeviceRef) (j : UsbDeviceId) (c : ℕ) (m : List (UsbDeviceId × ℕ))
    → (filter_map (keep_entry allowed) ((j, c) ∷ m) ≡ filter_map (keep_entry allowed) m)
      ⊎ ((n : ℕ) × ((0 < n)
            × (filter_map (keep_entry allowed) ((j, c) ∷ m)
                ≡ (j, n) ∷ filter_map (keep_entry allowed) m)))
unfolding filter_map keep_entry
skip_entry allowed j c m =
    let n = if contains allowed (usb j) then c - 1 else c in
    elim (Bool-cases (ltb 0 n)) [
      | inl e ↦ inr (n, (ground (arith, e), ground (arith, e)))
      | inr e ↦ inl (ground (arith, e))
    ]

skip-UniqueKeys :
    (allowed : List DeviceRef) (m : List (UsbDeviceId × ℕ))
    → UniqueKeys m
    → UniqueKeys (filter_map (keep_entry allowed) m)
unfolding filter_map
skip-UniqueKeys allowed [] u = tt
skip-UniqueKeys allowed ((j, c) ∷ m) u = elim (skip_entry allowed j c m) [
  | inl e ↦ rw (UniqueKeys, e) (skip-UniqueKeys allowed m u.1)
  | inr (n, (p, e)) ↦
      rw (UniqueKeys, e) (get-skip_none allowed m j u.0, skip-UniqueKeys allowed m u.1)
]

skip_counted :
    (allowed : List DeviceRef) (m : List (UsbDeviceId × ℕ))
    → All (λ e. 0 < e.1) (filter_map (keep_entry allowed) m)
unfolding filter_map
skip_counted allowed [] = tt
skip_counted allowed ((j, c) ∷ m) = elim (skip_entry allowed j c m) [
  | inl e ↦ rw (All, e) (skip_counted allowed m)
  | inr (n, (p, e)) ↦ rw (All, e) (p, skip_counted allowed m)
]

pub skip-IsSnapshot :
    (s : DeviceSnapshot) (allowed : List DeviceRef) → IsSnapshot s → IsSnapshot (skip_usb s allowed)
unfolding skip_usb
skip-IsSnapshot s allowed v = record {
  unique = skip-UniqueKeys allowed s.devices v.unique;
  counted = skip_counted allowed s.devices;
}

-- For a reading of the USB bus with a device that is allowed and not on the configuration's
-- whitelist, a baseline captured from that reading under the allowances, and counts that fit a u32:
-- the same reading is silent while the allowances stand, and reported once the device is not among
-- those that remain.
pub revoked_reads_as_new :
    (current : DeviceSnapshot) (cfg : Config) (allowed remaining : List DeviceRef) (d : UsbDeviceId)
    → IsSnapshot current
    → ((id : UsbDeviceId) → count_of current id < 2 ^ 32)
    → ((id : UsbDeviceId)
        → count (add_entries cfg.whitelist.devices []) id + length allowed + length remaining
          < 2 ^ 32)
    → 0 < count_of current d
    → contains allowed (usb d) ≡ true
    → contains remaining (usb d) ≡ false
    → count (add_entries cfg.whitelist.devices []) d ≡ 0
    → (detect_changes current (skip_usb current allowed) (build_usb_whitelist cfg allowed) ≡ none)
      × (detect_changes current (skip_usb current allowed) (build_usb_whitelist cfg remaining)
          ≢ none)
unfolding build_usb_whitelist count_of skip_usb
revoked_reads_as_new current cfg allowed remaining d v small room there h gone unlisted =
    let base = skip_usb current allowed in
    let vb = skip-IsSnapshot current allowed v in
    let listed = add_entries cfg.whitelist.devices [] in
    let kept = λ (k : UsbDeviceId). count-skip allowed current.devices k v.unique in
    (
      (usb_silence current base (build_usb_whitelist cfg allowed) v vb).1 (λ k.
          let c = kept k in
          let w = count-add_allowed allowed listed k (omega (arith, room k)) in
          let n = contains-named allowed k in
          let s = small k in unfold saturating_add in ground (arith, c, w, n, s)),
      λ silent.
          let ok = (usb_silence current base (build_usb_whitelist cfg remaining) v vb).0 silent d in
          let c = kept d in
          let w = count-add_allowed remaining listed d (omega (arith, room d)) in
          let n = contains-named remaining d in
          unfold saturating_add in ground (arith, ok, c, w, n, small d),
    )
