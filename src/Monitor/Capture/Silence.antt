-- ===== src/Monitor/Capture/Silence.antt =====
-- A fresh baseline against the hardware it was captured from: no bus reports a change.
use plugkill.Prelude.{
  ◌+◌, ◌-◌, ◌^◌, ◌<◌, ◌≡◌, refl, arith, not, ◌&&◌, ◌||◌, none, List, [], ◌∷◌, map, contains,
  contains-append, contains-filter, contains_congr, count, is_empty, length, filter_map,
  if◌then◌else◌, list_eq, nat_eq, ap,
}
use plugkill.Config.{Config, ThunderboltWhitelistEntry, SdCardWhitelistEntry}
use plugkill.Allowances.{
  DeviceRef, usb, thunderbolt, sd_card, pci, display, device_ref_eq, device_ref_beq,
}
use plugkill.Usb
use plugkill.Usb.{UsbDeviceId, DeviceSnapshot, usb_device_id_eq, count_of, saturating_add}
use plugkill.Usb.Detect.{IsSnapshot, usb_silence}
use plugkill.Thunderbolt
use plugkill.Thunderbolt.{ThunderboltDeviceId, ThunderboltSnapshot, thunderbolt_device_id_eq}
use plugkill.Thunderbolt.Detect.{thunderbolt_silence}
use plugkill.SdCard
use plugkill.SdCard.{SdCardDeviceId, SdCardSnapshot, sd_card_device_id_eq}
use plugkill.SdCard.Detect.{sd_card_silence}
use plugkill.Monitor.Allowed.{
  add_entries, build_usb_whitelist, build_thunderbolt_whitelist, build_sdcard_whitelist, skip_usb,
  skip_thunderbolt, skip_sdcard, thunderbolt_of, sd_card_of,
}
use plugkill.Monitor.Allowed.Revoked.{
  count-skip, skip-IsSnapshot, named, contains-named, count-add_allowed,
}

-- Counts that fit, on the whitelist with the allowances and on the bus.
pub record HasRoom (cfg : Config) (allowed : List DeviceRef) (s : DeviceSnapshot) : Type 0 where
  pub listed :
      (id : UsbDeviceId) → count (add_entries cfg.whitelist.devices []) id + length allowed < 2 ^ 32
  pub counts : (id : UsbDeviceId) → count_of s id < 2 ^ 32

-- The comparison of a reading with a baseline captured from it, on the USB bus.
pub usb_fresh :
    (cfg : Config) (allowed : List DeviceRef) (s : DeviceSnapshot)
    → IsSnapshot s
    → HasRoom cfg allowed s
    → Usb.detect_changes s
        (if is_empty allowed then s else skip_usb s allowed)
        (build_usb_whitelist cfg allowed)
      ≡ none
usb_fresh cfg [] s v r =
    (usb_silence s s (build_usb_whitelist cfg []) v v).1
      (λ k. let n = r.counts k in unfold saturating_add in ground arith)
usb_fresh cfg (a ∷ rest) s v r =
    let allowed = a ∷ rest in
    let base = skip_usb s allowed in
    let vb = skip-IsSnapshot s allowed v in
    (usb_silence s base (build_usb_whitelist cfg allowed) v vb).1 (λ k.
      let c : count_of base k
          ≡ (if contains allowed (usb k) then count_of s k - 1 else count_of s k) =
        unfold count_of skip_usb in count-skip allowed s.devices k v.unique in
      let w : count_of (build_usb_whitelist cfg allowed) k
          ≡ count (add_entries cfg.whitelist.devices []) k + named allowed k =
        unfold count_of build_usb_whitelist in
        count-add_allowed allowed (add_entries cfg.whitelist.devices []) k (r.listed k) in
      let n = contains-named allowed k in
      let m = r.counts k in unfold saturating_add in ground (arith, c, w, n, m))

thunderbolt-allowed :
    (allowed : List DeviceRef) (id : ThunderboltDeviceId)
    → contains (filter_map thunderbolt_of allowed) id ≡ contains allowed (thunderbolt id)
unfolding filter_map thunderbolt_of contains device_ref_beq
thunderbolt-allowed [] id = refl
thunderbolt-allowed (usb x ∷ rest) id = thunderbolt-allowed rest id
thunderbolt-allowed (thunderbolt x ∷ rest) id = ground (arith, thunderbolt-allowed rest id)
thunderbolt-allowed (sd_card x ∷ rest) id = thunderbolt-allowed rest id
thunderbolt-allowed (pci x ∷ rest) id = thunderbolt-allowed rest id
thunderbolt-allowed (display x ∷ rest) id = thunderbolt-allowed rest id

-- The same on the Thunderbolt bus.
pub thunderbolt_fresh :
    (cfg : Config) (allowed : List DeviceRef) (s : ThunderboltSnapshot)
    → Thunderbolt.detect_changes s
        (if is_empty allowed then s else skip_thunderbolt s allowed)
        (build_thunderbolt_whitelist cfg allowed)
      ≡ none
thunderbolt_fresh cfg [] s =
    (thunderbolt_silence s s (build_thunderbolt_whitelist cfg [])).1
      (λ id. (λ h. h, λ h. ground arith))
thunderbolt_fresh cfg (a ∷ rest) s =
    let allowed = a ∷ rest in
    (thunderbolt_silence s (skip_thunderbolt s allowed) (build_thunderbolt_whitelist cfg allowed)).1
      (λ id.
        let k : contains (skip_thunderbolt s allowed).devices id
            ≡ (contains s.devices id && not (contains allowed (thunderbolt id))) =
          unfold skip_thunderbolt in
          contains-filter (λ x. not (contains allowed (thunderbolt x))) s.devices id
            (λ b e. ap not (
              contains_congr allowed (thunderbolt b) (thunderbolt id)
                (unfold device_ref_beq in e))) in
        let w : contains (build_thunderbolt_whitelist cfg allowed).devices id ≡ (
            contains
              (map (λ (e : ThunderboltWhitelistEntry). record { unique_id = e.unique_id })
                cfg.thunderbolt_whitelist.devices)
              id
            || contains (filter_map thunderbolt_of allowed) id) =
          unfold build_thunderbolt_whitelist in contains-append _ _ id in
        let f = thunderbolt-allowed allowed id in
        (λ h. ground (arith, k, w, f), λ h. ground (arith, k, w, f)))

sd_card-allowed :
    (allowed : List DeviceRef) (id : SdCardDeviceId)
    → contains (filter_map sd_card_of allowed) id ≡ contains allowed (sd_card id)
unfolding filter_map sd_card_of contains device_ref_beq
sd_card-allowed [] id = refl
sd_card-allowed (usb x ∷ rest) id = sd_card-allowed rest id
sd_card-allowed (thunderbolt x ∷ rest) id = sd_card-allowed rest id
sd_card-allowed (sd_card x ∷ rest) id = ground (arith, sd_card-allowed rest id)
sd_card-allowed (pci x ∷ rest) id = sd_card-allowed rest id
sd_card-allowed (display x ∷ rest) id = sd_card-allowed rest id

-- The same on the SD card bus.
pub sd_card_fresh :
    (cfg : Config) (allowed : List DeviceRef) (s : SdCardSnapshot)
    → SdCard.detect_changes s
        (if is_empty allowed then s else skip_sdcard s allowed)
        (build_sdcard_whitelist cfg allowed)
      ≡ none
sd_card_fresh cfg [] s =
    (sd_card_silence s s (build_sdcard_whitelist cfg [])).1 (λ id. (λ h. h, λ h. ground arith))
sd_card_fresh cfg (a ∷ rest) s =
    let allowed = a ∷ rest in
    (sd_card_silence s (skip_sdcard s allowed) (build_sdcard_whitelist cfg allowed)).1 (λ id.
      let k : contains (skip_sdcard s allowed).devices id
          ≡ (contains s.devices id && not (contains allowed (sd_card id))) =
        unfold skip_sdcard in
        contains-filter (λ x. not (contains allowed (sd_card x))) s.devices id
          (λ b e.
            ap not
              (contains_congr allowed (sd_card b) (sd_card id) (unfold device_ref_beq in e))) in
      let w : contains (build_sdcard_whitelist cfg allowed).devices id ≡ (
          contains
            (map (λ (e : SdCardWhitelistEntry). record { serial = e.serial })
              cfg.sdcard_whitelist.devices)
            id
          || contains (filter_map sd_card_of allowed) id) =
        unfold build_sdcard_whitelist in contains-append _ _ id in
      let f = sd_card-allowed allowed id in
      (λ h. ground (arith, k, w, f), λ h. ground (arith, k, w, f)))
