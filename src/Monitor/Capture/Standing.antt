-- ===== src/Monitor/Capture/Standing.antt =====
-- What a capture for a reload does to the baselines that stand.
use plugkill.Prelude.{ℕ, ◌≢◌, ◌≡◌, arith, Bool, true, false, Option, none, some}
use plugkill.Config.{Config}
use plugkill.State.{DaemonState}
use plugkill.Monitor.Detection.{Baselines}
use plugkill.Monitor.Capture.{
  Hardware, capture_baselines, clear_unwatched, capture_devices, capture_events, capture_pci,
  capture_usb, capture_thunderbolt, capture_sdcard, skip_allowed, reset_captured, reset_power,
  reset_network, reset_lid,
}

-- A baseline that stands is the one after the capture; a bus that is switched off has none.
pub record IsRetained {A : Type 0} (watched : Bool) (before after : Option A) : Type 0 where
  pub stands : (a : A) → watched ≡ true → before ≡ some a → after ≡ some a
  pub cleared : watched ≡ false → after ≡ none

module _ (cfg : Config) (bl : Baselines) (st : DaemonState) (h : Hardware) (now : ℕ) where
  -- A capture for a reload, whatever the hardware answers, leaves the baselines of the USB, power,
  -- network, lid and PCI buses that are watched and have one, so that a device plugged in since is
  -- not taken in, and takes away those of the buses that are switched off; where the power, network
  -- and lid baselines stand, no grace period that runs on them is lost.
  pub reload_keeps_standing :
      let (after, st') = capture_baselines cfg bl st h true now in
      IsRetained cfg.general.watch_usb bl.usb after.usb
      × IsRetained cfg.general.watch_power bl.power after.power
      × IsRetained cfg.general.watch_network bl.network after.network
      × IsRetained cfg.general.watch_lid bl.lid after.lid
      × IsRetained cfg.general.watch_pci bl.pci after.pci
      × (bl.power ≢ none → st'.power_unplug_at ≡ st.power_unplug_at)
      × (bl.network ≢ none → st'.network_link_down_at ≡ st.network_link_down_at)
      × (bl.lid ≢ none → st'.lid_close_at ≡ st.lid_close_at)
  unfolding capture_baselines clear_unwatched capture_devices capture_events skip_allowed
      capture_usb capture_thunderbolt capture_sdcard capture_pci reset_captured reset_power
      reset_network reset_lid
  reload_keeps_standing = (
    record { stands = λ a w e. ground arith; cleared = λ w. ground arith },
    record { stands = λ a w e. ground arith; cleared = λ w. ground arith },
    record { stands = λ a w e. ground arith; cleared = λ w. ground arith },
    record { stands = λ a w e. ground arith; cleared = λ w. ground arith },
    record { stands = λ a w e. ground arith; cleared = λ w. ground arith },
    λ p. ground arith,
    λ p. ground arith,
    λ p. ground arith,
  )
