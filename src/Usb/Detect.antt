-- ===== src/Usb/Detect.antt =====
-- What `DeviceSnapshot::detect_changes` decides: the comparison by counts, whatever the order of
-- the hash maps.
use plugkill.Prelude.{
  ℕ, zero, suc, ◌≤◌, ◌<◌, ◌≡◌, ◌↔◌, true, none, some, arith, ◌==◌, All, All-mem, All-of_mem,
  find_map, find_map-none, find_map-some, get, get-mem, mem-get, get_congr, UniqueKeys, count, Memᴰ,
  Option-cases, inl, inr,
}
use plugkill.Usb.{
  UsbDeviceId, DeviceSnapshot, DeviceChange, added, removed, count_increased, count_decreased,
  usb_device_id_eq, count_of, saturating_add, check_present, check_baseline, detect_changes,
}

-- A snapshot as enumeration builds it: one entry for each identity, each counted at least once.
pub record IsSnapshot (s : DeviceSnapshot) : Type 0 where
  pub unique : UniqueKeys s.devices
  pub counted : All (λ e. 0 < e.1) s.devices

-- Every identity is there as often as the baseline has it, and no more often than the baseline
-- and the whitelist allow together.
abbrev pub IsAccepted : DeviceSnapshot → DeviceSnapshot → DeviceSnapshot → Type 0
IsAccepted current baseline whitelist =
    (id : UsbDeviceId)
    → (count_of baseline id ≤ count_of current id)
      × (count_of current id ≤ saturating_add (count_of baseline id) (count_of whitelist id))

module _ (s : DeviceSnapshot) where
  -- An entry's count is the count of its identity.
  count_of-entry :
      (id : UsbDeviceId) (n : ℕ) → IsSnapshot s → Memᴰ (id, n) s.devices → count_of s id ≡ n
  unfolding count_of
  count_of-entry id n v m = rw (get-mem s.devices v.unique m, count)

  -- A counted identity has an entry that compares equal to it.
  entry-count_of :
      (id : UsbDeviceId)
      → 0 < count_of s id
      → (j : UsbDeviceId) × Memᴰ (j, count_of s id) s.devices × ((j == id) ≡ true)
  unfolding count_of
  entry-count_of id h = elim (Option-cases (get id s.devices)) [
    | inl e ↦ absurd (ground arith)
    | inr (n, e) ↦ rw (e, count) (mem-get id s.devices e)
  ]

  count_of_congr : (i j : UsbDeviceId) → (i == j) ≡ true → count_of s i ≡ count_of s j
  unfolding count_of
  count_of_congr i j h = ground (arith, get_congr i j s.devices h)

module _ (current baseline whitelist : DeviceSnapshot) (vc : IsSnapshot current)
    (vb : IsSnapshot baseline) where
  present_ok :
      IsAccepted current baseline whitelist
      → All (λ e. check_present baseline whitelist e ≡ none) current.devices
  present_ok ok = All-of_mem (λ e. check_present baseline whitelist e ≡ none) current.devices go
    where
      go :
          (e : UsbDeviceId × ℕ) → Memᴰ e current.devices → check_present baseline whitelist e ≡ none
      go (id, n) m =
          unfold check_present in
          ground (
            arith,
            ok id,
            count_of-entry current id n vc m,
            All-mem (λ (e : UsbDeviceId × ℕ). 0 < e.1) current.devices vc.counted m,
          )

  baseline_ok :
      IsAccepted current baseline whitelist
      → All (λ e. check_baseline current e ≡ none) baseline.devices
  baseline_ok ok = All-of_mem (λ e. check_baseline current e ≡ none) baseline.devices go
    where
      go : (e : UsbDeviceId × ℕ) → Memᴰ e baseline.devices → check_baseline current e ≡ none
      go (id, n) m =
          unfold check_baseline in
          ground (
            arith,
            ok id,
            count_of-entry baseline id n vb m,
            All-mem (λ (e : UsbDeviceId × ℕ). 0 < e.1) baseline.devices vb.counted m,
          )

  -- A device of the baseline is still there as often as it was.
  baseline_bound :
      All (λ e. check_baseline current e ≡ none) baseline.devices
      → (id : UsbDeviceId) → 0 < count_of baseline id
      → count_of baseline id ≤ count_of current id
  baseline_bound h id pos =
      let (j, m, e) = entry-count_of baseline id pos in
      still_there j (All-mem (λ e. check_baseline current e ≡ none) baseline.devices h m)
        (count_of_congr current j id e)
    where
      still_there :
          (j : UsbDeviceId)
          → check_baseline current (j, count_of baseline id) ≡ none
          → count_of current j ≡ count_of current id
          → count_of baseline id ≤ count_of current id
      still_there j c e = unfold check_baseline in ground arith

  -- A device that is there now is no more frequent than allowed.
  present_bound :
      All (λ e. check_present baseline whitelist e ≡ none) current.devices
      → (id : UsbDeviceId) → 0 < count_of current id
      → count_of current id ≤ saturating_add (count_of baseline id) (count_of whitelist id)
  present_bound h id pos =
      let (j, m, e) = entry-count_of current id pos in
      allowed j (All-mem (λ e. check_present baseline whitelist e ≡ none) current.devices h m)
        (count_of_congr baseline j id e) (count_of_congr whitelist j id e)
    where
      allowed :
          (j : UsbDeviceId)
          → check_present baseline whitelist (j, count_of current id) ≡ none
          → count_of baseline j ≡ count_of baseline id
          → count_of whitelist j ≡ count_of whitelist id
          → count_of current id ≤ saturating_add (count_of baseline id) (count_of whitelist id)
      allowed j c b w = unfold check_present in ground arith

  detect_changes-IsAccepted :
      detect_changes current baseline whitelist ≡ none → IsAccepted current baseline whitelist
  detect_changes-IsAccepted h id =
      let (p, q) = both_silent in
      (
        by_pos (count_of baseline id) (baseline_bound ((find_map-none _ _).0 q) id),
        by_pos (count_of current id) (present_bound ((find_map-none _ _).0 p) id),
      )
    where
      both_silent :
          (find_map (check_present baseline whitelist) current.devices ≡ none)
          × (find_map (check_baseline current) baseline.devices ≡ none)
      both_silent = unfold detect_changes in ground arith

      by_pos : (n : ℕ) {m : ℕ} → (0 < n → n ≤ m) → n ≤ m
      by_pos zero f = omega arith
      by_pos (suc n) f = f (omega arith)

  -- For snapshots as enumeration builds them, `detect_changes` reports nothing exactly when every
  -- identity is there at least as often as in the baseline, and at most as often as the baseline
  -- and the whitelist allow together (saturating at the largest u32).
  pub usb_silence :
      (detect_changes current baseline whitelist ≡ none) ↔ IsAccepted current baseline whitelist
  usb_silence = (detect_changes-IsAccepted, silent)
    where
      silent :
          IsAccepted current baseline whitelist → detect_changes current baseline whitelist ≡ none
      silent ok =
          unfold detect_changes in
          rw ((find_map-none _ _).1 (present_ok ok)) ((find_map-none _ _).1 (baseline_ok ok))

-- What a reported change claims.
abbrev pub Describes : DeviceSnapshot → DeviceSnapshot → DeviceSnapshot → DeviceChange → Type 0
Describes current baseline whitelist (added d) =
    (0 < count_of current d) × (count_of baseline d ≡ 0) × (count_of whitelist d ≡ 0)
Describes current baseline whitelist (removed d) =
    (0 < count_of baseline d) × (count_of current d ≡ 0)
Describes current baseline whitelist (count_increased d expected actual) =
    (expected ≡ saturating_add (count_of baseline d) (count_of whitelist d))
    × (actual ≡ count_of current d)
    × (expected < actual)
Describes current baseline whitelist (count_decreased d expected actual) =
    (expected ≡ count_of baseline d)
    × (actual ≡ count_of current d)
    × (0 < actual)
    × (actual < expected)

module _ (current baseline whitelist : DeviceSnapshot) (vc : IsSnapshot current)
    (vb : IsSnapshot baseline) where
  check_present-Describes :
      (e : UsbDeviceId × ℕ) (c : DeviceChange)
      → Memᴰ e current.devices
      → check_present baseline whitelist e ≡ some c
      → Describes current baseline whitelist c
  check_present-Describes (id, n) (added d) m h =
      unfold check_present in
      ground (
        arith,
        count_of-entry current id n vc m,
        All-mem (λ (e : UsbDeviceId × ℕ). 0 < e.1) current.devices vc.counted m,
      )
  check_present-Describes (id, n) (removed d) m h =
      unfold check_present in
      ground (
        arith,
        count_of-entry current id n vc m,
        All-mem (λ (e : UsbDeviceId × ℕ). 0 < e.1) current.devices vc.counted m,
      )
  check_present-Describes (id, n) (count_increased d x y) m h =
      unfold check_present in
      ground (
        arith,
        count_of-entry current id n vc m,
        All-mem (λ (e : UsbDeviceId × ℕ). 0 < e.1) current.devices vc.counted m,
      )
  check_present-Describes (id, n) (count_decreased d x y) m h =
      unfold check_present in
      ground (
        arith,
        count_of-entry current id n vc m,
        All-mem (λ (e : UsbDeviceId × ℕ). 0 < e.1) current.devices vc.counted m,
      )

  check_baseline-Describes :
      (e : UsbDeviceId × ℕ) (c : DeviceChange)
      → Memᴰ e baseline.devices
      → check_baseline current e ≡ some c
      → Describes current baseline whitelist c
  check_baseline-Describes (id, n) (added d) m h =
      unfold check_baseline in
      ground (
        arith,
        count_of-entry baseline id n vb m,
        All-mem (λ (e : UsbDeviceId × ℕ). 0 < e.1) baseline.devices vb.counted m,
      )
  check_baseline-Describes (id, n) (removed d) m h =
      unfold check_baseline in
      ground (
        arith,
        count_of-entry baseline id n vb m,
        All-mem (λ (e : UsbDeviceId × ℕ). 0 < e.1) baseline.devices vb.counted m,
      )
  check_baseline-Describes (id, n) (count_increased d x y) m h =
      unfold check_baseline in
      ground (
        arith,
        count_of-entry baseline id n vb m,
        All-mem (λ (e : UsbDeviceId × ℕ). 0 < e.1) baseline.devices vb.counted m,
      )
  check_baseline-Describes (id, n) (count_decreased d x y) m h =
      unfold check_baseline in
      ground (
        arith,
        count_of-entry baseline id n vb m,
        All-mem (λ (e : UsbDeviceId × ℕ). 0 < e.1) baseline.devices vb.counted m,
      )

  -- For snapshots as enumeration builds them, the change that `detect_changes` reports is true of
  -- the snapshots: an added device is present with no count in the baseline or the whitelist, a
  -- removed one was in the baseline and is gone, and a changed count is quoted exactly.
  pub usb_report :
      (c : DeviceChange)
      → detect_changes current baseline whitelist ≡ some c
      → Describes current baseline whitelist c
  usb_report c h =
      elim (Option-cases (find_map (check_present baseline whitelist) current.devices)) [
        | inl e ↦
            let (x, m, q) =
              find_map-some (check_baseline current) baseline.devices {b = c}
                (unfold detect_changes in ground arith) in
            check_baseline-Describes x c m q
        | inr (d, e) ↦
            let (x, m, q) =
              find_map-some (check_present baseline whitelist) current.devices {b = c}
                (unfold detect_changes in ground arith) in
            check_present-Describes x c m q
      ]
