-- ===== src/Pci/Detect.antt =====
-- What `PciSnapshot::detect_changes` decides, whatever the order of the hash sets.
use plugkill.Prelude.{
  ◌≡◌, ◌↔◌, true, false, none, some, arith, ◌==◌, nat_eq, list_eq, find_map, find_map-none_set,
  find_map-some_set, contains, contains_congr, Option-cases, inl, inr, Text,
}
use plugkill.Pci.{
  PciSnapshot, PciChange, added, removed, check_present, check_baseline, detect_changes,
}

-- What a reported change claims.
abbrev pub Describes : PciSnapshot → PciSnapshot → PciChange → Type 0
Describes current baseline (added d) =
    (contains current.devices d ≡ true) × (contains baseline.devices d ≡ false)
Describes current baseline (removed d) =
    (contains baseline.devices d ≡ true) × (contains current.devices d ≡ false)

module _ (current baseline : PciSnapshot) where
  present_silent :
      (find_map (check_present baseline) current.devices ≡ none)
      ↔ ((d : Text) → contains current.devices d ≡ true → check_present baseline d ≡ none)
  present_silent = find_map-none_set (check_present baseline) current.devices congr
    where
      congr :
          (a b : Text)
          → (a == b) ≡ true
          → check_present baseline a ≡ none
          → check_present baseline b ≡ none
      congr a b e h = unfold check_present in ground (arith, contains_congr baseline.devices a b e)

  baseline_silent :
      (find_map (check_baseline current) baseline.devices ≡ none)
      ↔ ((d : Text) → contains baseline.devices d ≡ true → check_baseline current d ≡ none)
  baseline_silent = find_map-none_set (check_baseline current) baseline.devices congr
    where
      congr :
          (a b : Text)
          → (a == b) ≡ true
          → check_baseline current a ≡ none
          → check_baseline current b ≡ none
      congr a b e h = unfold check_baseline in ground (arith, contains_congr current.devices a b e)

  same_at :
      detect_changes current baseline ≡ none
      → (d : Text) → contains current.devices d ≡ contains baseline.devices d
  same_at h d = both (present_silent.0 both_silent.0 d) (baseline_silent.0 both_silent.1 d)
    where
      both_silent :
          (find_map (check_present baseline) current.devices ≡ none)
          × (find_map (check_baseline current) baseline.devices ≡ none)
      both_silent = unfold detect_changes in ground arith

      both :
          (contains current.devices d ≡ true → check_present baseline d ≡ none)
          → (contains baseline.devices d ≡ true → check_baseline current d ≡ none)
          → contains current.devices d ≡ contains baseline.devices d
      both f g = unfold check_present check_baseline in ground arith

  -- `detect_changes` reports nothing exactly when the two snapshots hold the same selectors.
  pub pci_silence :
      (detect_changes current baseline ≡ none)
      ↔ ((d : Text) → contains current.devices d ≡ contains baseline.devices d)
  pci_silence = (same_at, silent)
    where
      silent :
          ((d : Text) → contains current.devices d ≡ contains baseline.devices d)
          → detect_changes current baseline ≡ none
      silent ok =
          let p = present_silent.1 (λ d c. unfold check_present in ground (arith, ok d)) in
          let q = baseline_silent.1 (λ d c. unfold check_baseline in ground (arith, ok d)) in
          unfold detect_changes in rw p q

  check_present-Describes :
      (d : Text) (c : PciChange)
      → contains current.devices d ≡ true
      → check_present baseline d ≡ some c
      → Describes current baseline c
  unfolding check_present
  check_present-Describes d (added x) m h = ground arith
  check_present-Describes d (removed x) m h = ground arith

  check_baseline-Describes :
      (d : Text) (c : PciChange)
      → contains baseline.devices d ≡ true
      → check_baseline current d ≡ some c
      → Describes current baseline c
  unfolding check_baseline
  check_baseline-Describes d (added x) m h = ground arith
  check_baseline-Describes d (removed x) m h = ground arith

  -- The change that `detect_changes` reports is true of the two sets.
  pub pci_report :
      (c : PciChange) → detect_changes current baseline ≡ some c → Describes current baseline c
  pci_report c h = elim (Option-cases (find_map (check_present baseline) current.devices)) [
    | inl e ↦
        let (x, m, q) =
          find_map-some_set (check_baseline current) baseline.devices {b = c}
            (unfold detect_changes in ground arith) in
        check_baseline-Describes x c m q
    | inr (d, e) ↦
        let (x, m, q) =
          find_map-some_set (check_present baseline) current.devices {b = c}
            (unfold detect_changes in ground arith) in
        check_present-Describes x c m q
  ]
