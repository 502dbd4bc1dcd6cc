-- ===== src/Examples/Desk.antt =====
-- The theorems on the allowance table, on a monitor's identity and on the client, at concrete
-- inputs.
use plugkill.Prelude.{
  ℕ, ◌≡◌, ◌<◌, ◌+◌, ◌^◌, ◌&&◌, refl, arith, true, none, some, List, [], ◌∷◌, ok, codes, Text,
  list_eq, list_beq, nat_eq, count, find_map, filter, any, every, if◌then◌else◌, ◌==◌, ltb,
  from_secs, filter_map,
}
use plugkill.Edid.{EdidId}
use plugkill.Edid.Parse.{parse}
use plugkill.Edid.Parse.Bounds.{IsIdentity, every-IsByte, parsed-IsIdentity}
use plugkill.Config
use plugkill.Config.{Config, default_config, default_general, WhitelistEntry, PowerPolicy}
use plugkill.Allowances.{DeviceRef, usb, pci, display, selector, promoted, new_allowance, new_table}
use plugkill.Allowances.Selector.{from_str}
use plugkill.Allowances.Selector.RoundTrip.{nameless}
use plugkill.Allowances.Table.{find_entry}
use plugkill.Allowances.Table.Refines.{
  TableCall, add_one, remove_one, sweep_at, warn_at, clear_all, Represents, calls, calls_spec,
  calls_refine, AnswersAll,
}
use plugkill.State.{DaemonState, Grace, enforce, new_state}
use plugkill.Usb.{UsbDeviceId, usb_device_id_eq, count_of}
use plugkill.Power.{battery}
use plugkill.Lid
use plugkill.Socket.Status.{Live, handle_status}
use plugkill.Monitor.Allowed.{build_usb_whitelist}
use plugkill.Monitor.Detection.{Baselines}
use plugkill.Client.Editor
use plugkill.Client.Editor.{list_add, list_remove, normalise}
use plugkill.Client.Editor.Lists.{list_remove-list_add}
use plugkill.Client.Editor.Cover.{list_cover_one}
use plugkill.Client.Editor.Cover.Raise.{id_of, summed, cover_raises_first}
use plugkill.Client.Show.{kill_pending, from_status, from_armed}
use plugkill.Client.Show.Tells.{Tells, on_screen-Tells}

abbrev stick : DeviceRef
stick = usb (record { vendor_id = codes "0781"; product_id = codes "5567" })

abbrev session : List TableCall
session =
    add_one (new_allowance stick promoted 100 (some 50))
    ∷ warn_at 140 60
    ∷ remove_one (pci (codes "0000:01:00.0"))
    ∷ sweep_at 151
    ∷ remove_one stick
    ∷ clear_all
    ∷ []

nothing-Represents : Represents new_table (λ id. none)
unfolding new_table find_entry
nothing-Represents = record { table = tt; agrees = λ id. refl }

calls_refine_example :
    Represents (calls session new_table).1 (calls_spec session (λ id. none))
    × AnswersAll session (λ id. none) (calls session new_table).0
calls_refine_example = calls_refine session new_table (λ id. none) nothing-Represents

abbrev samsung_block : Text
samsung_block =
    0x00 ∷ 0xFF ∷ 0xFF ∷ 0xFF ∷ 0xFF ∷ 0xFF ∷ 0xFF ∷ 0x00 ∷ 0x4C ∷ 0x2D ∷ 0x2D ∷ 0x77 ∷ 0x31 ∷ 0x36
    ∷ 0x57 ∷ 0x30 ∷ 0x2A ∷ 0x23 ∷ 0x01 ∷ 0x04 ∷ 0xB5 ∷ 0x77 ∷ 0x22 ∷ 0x78 ∷ 0x3B ∷ 0xE0 ∷ 0x95
    ∷ 0xAE ∷ 0x4E ∷ 0x3A ∷ 0xBB ∷ 0x25 ∷ 0x0C ∷ 0x50 ∷ 0x54 ∷ 0x21 ∷ 0x08 ∷ 0x00 ∷ 0x81 ∷ 0xC0
    ∷ 0x81 ∷ 0x00 ∷ 0x81 ∷ 0x80 ∷ 0x95 ∷ 0x00 ∷ 0xA9 ∷ 0xC0 ∷ 0xB3 ∷ 0x00 ∷ 0x01 ∷ 0x01 ∷ 0x01
    ∷ 0x01 ∷ 0x91 ∷ 0xE6 ∷ 0x00 ∷ 0xA0 ∷ 0xF0 ∷ 0x38 ∷ 0x96 ∷ 0x40 ∷ 0x30 ∷ 0x20 ∷ 0x3A ∷ 0x00
    ∷ 0xA9 ∷ 0x50 ∷ 0x41 ∷ 0x00 ∷ 0x00 ∷ 0x1A ∷ 0x00 ∷ 0x00 ∷ 0x00 ∷ 0xFD ∷ 0x0C ∷ 0x30 ∷ 0xF0
    ∷ 0x8B ∷ 0x8B ∷ 0xDD ∷ 0x01 ∷ 0x0A ∷ 0x20 ∷ 0x20 ∷ 0x20 ∷ 0x20 ∷ 0x20 ∷ 0x20 ∷ 0x00 ∷ 0x00
    ∷ 0x00 ∷ 0xFC ∷ 0x00 ∷ 0x4F ∷ 0x64 ∷ 0x79 ∷ 0x73 ∷ 0x73 ∷ 0x65 ∷ 0x79 ∷ 0x20 ∷ 0x47 ∷ 0x39
    ∷ 0x33 ∷ 0x53 ∷ 0x44 ∷ 0x00 ∷ 0x00 ∷ 0x00 ∷ 0xFF ∷ 0x00 ∷ 0x48 ∷ 0x4E ∷ 0x54 ∷ 0x59 ∷ 0x41
    ∷ 0x30 ∷ 0x31 ∷ 0x34 ∷ 0x31 ∷ 0x37 ∷ 0x0A ∷ 0x20 ∷ 0x20 ∷ 0x02 ∷ 0xD0 ∷ []

abbrev samsung : EdidId
samsung = record {
  mfg = codes "SAM";
  product = 30509;
  serial = some 811021873;
  name = codes "Odyssey G93SD";
}

parsed-IsIdentity_example :
    IsIdentity samsung × (from_str (selector (display samsung)) ≡ ok (nameless (display samsung)))
unfolding every parse list_beq
parsed-IsIdentity_example =
    parsed-IsIdentity samsung_block samsung (every-IsByte samsung_block refl) refl

abbrev receiver : ℕ → WhitelistEntry
receiver count = record { vendor_id = codes "046d"; product_id = codes "c52b"; count = count }

abbrev office : Config
office = record default_config { whitelist = record { devices = receiver 1 ∷ receiver 1 ∷ [] } }

abbrev with_stick : Config
with_stick = record default_config {
  whitelist = record {
    devices =
        receiver 1
        ∷ receiver 1
        ∷ record { vendor_id = codes "0781"; product_id = codes "5567"; count = 1 }
        ∷ [];
  };
}

list_remove-list_add_example : list_remove with_stick Editor.usb (codes "0781:5567") ≡ office
unfolding list_add from_str list_beq any default_config default_general
list_remove-list_add_example =
    list_remove-list_add office with_stick Editor.usb (codes " 0781:5567 ") (codes "0781:5567") refl

office_fits : (k : UsbDeviceId) → summed office.whitelist.devices k + 1 < 2 ^ 32
office_fits k = ground arith

cover_raises_first_example :
    (config' : Config) × (list_cover_one office Editor.usb (codes "046D:c52b") 2
      ≡ ok (codes "046d:c52b", config'))
    × ((k : UsbDeviceId)
        → count_of (build_usb_whitelist config' []) k
          ≡ count_of (build_usb_whitelist office []) k
            + (if ltb (receiver 1).count 2 && id_of (receiver 1) == k then 1 else 0))
unfolding normalise from_str list_beq find_map
cover_raises_first_example =
    cover_raises_first office (codes "046D:c52b") (codes "046d:c52b") 2 (receiver 1) refl refl
      office_fits

abbrev closing : Grace
closing = record { until = from_secs 12; reason = codes "lid closed" }

abbrev waiting : DaemonState
waiting = record (new_state enforce (codes "/etc/plugkill/config.toml") 0) {
  lid_grace = some closing;
}

abbrev strict : Config
strict = record default_config {
  general = record default_general { watch_lid = true };
  lid = record { policy = Config.LidPolicy.kill; grace_secs = 10 };
}

abbrev nothing : Baselines
nothing = record {
  usb = none;
  thunderbolt = none;
  sdcard = none;
  power = none;
  network = none;
  lid = none;
  pci = none;
  display = none;
  names = record { usb = []; thunderbolt = []; sdcard = [] };
}

abbrev glance : Live
glance = record {
  power = battery;
  lid = Lid.closed;
  network = λ only. record { interfaces = [] };
  uptime_now = from_secs 5;
  disarm_now = from_secs 5;
  poll_now = from_secs 5;
  now = from_secs 5;
}

on_screen-Tells_example :
    Tells waiting strict nothing glance (kill_pending (codes "lid") (codes "lid closed") 7)
unfolding handle_status from_status from_armed default_config default_general new_state from_secs
    list_beq filter filter_map
on_screen-Tells_example = on_screen-Tells waiting strict nothing glance
