-- ===== src/SdCard/Detect.antt =====
-- What `SdCardSnapshot::detect_changes` decides, whatever the order of the hash sets.
use plugkill.Prelude.{
  ◌≡◌, ◌↔◌, true, false, ◌||◌, none, some, arith, ◌==◌, find_map, find_map-none_set,
  find_map-some_set, contains, contains_congr, Option-cases, inl, inr,
}
use plugkill.SdCard.{
  SdCardDeviceId, SdCardSnapshot, SdCardChange, added, removed, sd_card_device_id_eq, check_present,
  check_baseline, detect_changes,
}

-- Every device of the baseline is still there, and every device that is there is in the baseline
-- or the whitelist.
abbrev pub IsAccepted : SdCardSnapshot → SdCardSnapshot → SdCardSnapshot → Type 0
IsAccepted current baseline whitelist =
    (id : SdCardDeviceId)
    → (contains baseline.devices id ≡ true → contains current.devices id ≡ true)
      × (contains current.devices id ≡ true
          → (contains baseline.devices id || contains whitelist.devices id) ≡ true)

-- What a reported change claims.
abbrev pub Describes : SdCardSnapshot → SdCardSnapshot → SdCardSnapshot → SdCardChange → Type 0
Describes current baseline whitelist (added d) =
    (contains current.devices d ≡ true)
    × (contains baseline.devices d ≡ false)
    × (contains whitelist.devices d ≡ false)
Describes current baseline whitelist (removed d) =
    (contains baseline.devices d ≡ true) × (contains current.devices d ≡ false)

module _ (current baseline whitelist : SdCardSnapshot) where
  present_silent : (find_map (check_present baseline whitelist) current.devices ≡ none) ↔ (
      (d : SdCardDeviceId)
      → contains current.devices d ≡ true
      → check_present baseline whitelist d ≡ none)
  present_silent = find_map-none_set (check_present baseline whitelist) current.devices congr
    where
      congr :
          (a b : SdCardDeviceId)
          → (a == b) ≡ true
          → check_present baseline whitelist a ≡ none
          → check_present baseline whitelist b ≡ none
      congr a b e h =
          unfold check_present in
          ground
            (arith, contains_congr baseline.devices a b e, contains_congr whitelist.devices a b e)

  baseline_silent : (find_map (check_baseline current) baseline.devices ≡ none) ↔ (
      (d : SdCardDeviceId) → contains baseline.devices d ≡ true → check_baseline current d ≡ none)
  baseline_silent = find_map-none_set (check_baseline current) baseline.devices congr
    where
      congr :
          (a b : SdCardDeviceId)
          → (a == b) ≡ true
          → check_baseline current a ≡ none
          → check_baseline current b ≡ none
      congr a b e h = unfold check_baseline in ground (arith, contains_congr current.devices a b e)

  detect_changes-IsAccepted :
      detect_changes current baseline whitelist ≡ none → IsAccepted current baseline whitelist
  detect_changes-IsAccepted h d =
      let (p, q) = both_silent in still_there (present_silent.0 p d) (baseline_silent.0 q d)
    where
      both_silent :
          (find_map (check_present baseline whitelist) current.devices ≡ none)
          × (find_map (check_baseline current) baseline.devices ≡ none)
      both_silent = unfold detect_changes in ground arith

      still_there :
          (contains current.devices d ≡ true → check_present baseline whitelist d ≡ none)
          → (contains baseline.devices d ≡ true → check_baseline current d ≡ none)
          → (contains baseline.devices d ≡ true → contains current.devices d ≡ true)
            × (contains current.devices d ≡ true
                → (contains baseline.devices d || contains whitelist.devices d) ≡ true)
      still_there f g = unfold check_present check_baseline in ground arith

  -- `detect_changes` reports nothing exactly when every device of the baseline is still there and
  -- every device that is there stands in the baseline or the whitelist.
  pub sd_card_silence :
      (detect_changes current baseline whitelist ≡ none) ↔ IsAccepted current baseline whitelist
  sd_card_silence = (detect_changes-IsAccepted, silent)
    where
      silent :
          IsAccepted current baseline whitelist → detect_changes current baseline whitelist ≡ none
      silent ok =
          let p = present_silent.1 (λ d c. unfold check_present in ground (arith, ok d)) in
          let q = baseline_silent.1 (λ d c. unfold check_baseline in ground (arith, ok d)) in
          unfold detect_changes in rw p q

  check_present-Describes :
      (d : SdCardDeviceId) (c : SdCardChange)
      → contains current.devices d ≡ true
      → check_present baseline whitelist d ≡ some c
      → Describes current baseline whitelist c
  unfolding check_present
  check_present-Describes d (added x) m h = ground arith
  check_present-Describes d (removed x) m h = ground arith

  check_baseline-Describes :
      (d : SdCardDeviceId) (c : SdCardChange)
      → contains baseline.devices d ≡ true
      → check_baseline current d ≡ some c
      → Describes current baseline whitelist c
  unfolding check_baseline
  check_baseline-Describes d (added x) m h = ground arith
  check_baseline-Describes d (removed x) m h = ground arith

  -- The change that `detect_changes` reports is true of the sets: an added device is there and
  -- in neither the baseline nor the whitelist, a removed one was in the baseline and is gone.
  pub sd_card_report :
      (c : SdCardChange)
      → detect_changes current baseline whitelist ≡ some c
      → Describes current baseline whitelist c
  sd_card_report c h =
      elim (Option-cases (find_map (check_present baseline whitelist) current.devices)) [
        | inl e ↦
            let (x, m, q) =
              find_map-some_set (check_baseline current) baseline.devices {b = c}
                (unfold detect_changes in ground arith) in
            check_baseline-Describes x c m q
        | inr (d, e) ↦
            let (x, m, q) =
              find_map-some_set (check_present baseline whitelist) current.devices {b = c}
                (unfold detect_changes in ground arith) in
            check_present-Describes x c m q
      ]
