-- ===== src/Client/Editor/Cover/Raise.antt =====
-- What the editor's raise of a USB entry does to what the daemon allows.
use plugkill.Prelude.{
  ℕ, ◌+◌, ◌≡◌, arith, true, ◌&&◌, Option, some, List, [], ◌∷◌, any, map, find, find_map, ltb, count,
  get, count-entry_add, entry_add, if◌then◌else◌, ◌==◌, list_eq, nat_eq, Text, ok, Bool-cases, inl,
  inr, ap, ◌<◌, ◌≤◌, ◌^◌,
}
use plugkill.Config.{Config, WhitelistEntry}
use plugkill.Usb.{UsbDeviceId, usb_device_id_eq, count_of}
use plugkill.Monitor.Allowed.{add_entries, add_allowed, build_usb_whitelist}
use plugkill.Client.Editor.{usb, usb_entry, usb_row, is_listed, list_entries, normalise}
use plugkill.Client.Editor.Cover.{
  change_count, change_first, raise_below, cover_normal, list_cover_one,
}

-- The identity of an entry, and how many devices of an identity the entries allow together.
abbrev pub id_of : WhitelistEntry → UsbDeviceId
id_of e = record { vendor_id = e.vendor_id; product_id = e.product_id }

abbrev pub summed : List WhitelistEntry → UsbDeviceId → ℕ
summed [] k = 0
summed (e ∷ es) k = (if id_of e == k then e.count else 0) + summed es k

count-add_entries :
    (es : List WhitelistEntry) (m : List (UsbDeviceId × ℕ)) (k : UsbDeviceId)
    → count m k + summed es k < 2 ^ 32
    → count (add_entries es m) k ≡ count m k + summed es k
unfolding add_entries
count-add_entries [] m k h = omega arith
count-add_entries (e ∷ es) m k h =
    let step = count-entry_add (id_of e) k e.count m in
    let later = count-add_entries es (entry_add (id_of e) e.count m) k in
    elim (Bool-cases (id_of e == k)) [
      | inl q ↦
          let more : count (entry_add (id_of e) e.count m) k ≡ count m k + e.count =
            ground (arith, step, q, h) in
          let rest = later (ground (arith, more, h, q)) in ground (arith, rest, more, q)
      | inr q ↦
          let as_many : count (entry_add (id_of e) e.count m) k ≡ count m k =
            ground (arith, step, q) in
          let rest = later (ground (arith, as_many, h, q)) in ground (arith, rest, as_many, q)
    ]

abbrev pub first_listed : Text → List WhitelistEntry → Option WhitelistEntry
first_listed entry = find (λ (e : WhitelistEntry). usb_entry e == entry)

summed-change :
    (present : ℕ) (entry : Text) (es : List WhitelistEntry) (k : UsbDeviceId) (e : WhitelistEntry)
    → first_listed entry es ≡ some e
    → summed (change_first (raise_below present) entry es) k
      ≡ summed es k + (if ltb e.count present && id_of e == k then 1 else 0)
unfolding change_first find_map
summed-change present entry [] k e h = ground arith
summed-change present entry (d ∷ es) k e h = elim (Bool-cases (usb_entry d == entry)) [
  | inl q ↦
      let same : d ≡ e = ground arith in
      let counts : d.count ≡ e.count = ap (λ (x : WhitelistEntry). x.count) same in
      let ids : (id_of d == k) ≡ (id_of e == k) = ap (λ (x : WhitelistEntry). id_of x == k) same in
      ground (arith, counts, ids)
  | inr q ↦ let later = summed-change present entry es k e (ground arith) in ground arith
]

listed_first :
    (entry : Text) (es : List WhitelistEntry) (e : WhitelistEntry)
    → first_listed entry es ≡ some e
    → any (λ (row : Text × Text). row.0 == entry) (map usb_row es) ≡ true
unfolding find_map any usb_row
listed_first entry [] e h = ground arith
listed_first entry (d ∷ es) e h = elim (Bool-cases (usb_entry d == entry)) [
  | inl q ↦ ground arith
  | inr q ↦ let later = listed_first entry es e (ground arith) in ground arith
]

covers_listed :
    (config : Config) (text entry : Text) (present : ℕ) (e : WhitelistEntry)
    → normalise usb text ≡ ok entry
    → first_listed entry config.whitelist.devices ≡ some e
    → list_cover_one config usb text present
      ≡ ok (entry, change_count (raise_below present) entry config)
unfolding list_cover_one cover_normal is_listed list_entries
covers_listed config text entry present e n f =
    let listed = listed_first entry config.whitelist.devices e f in ground (arith, n, listed)

allowed-summed :
    (config : Config) (k : UsbDeviceId)
    → summed config.whitelist.devices k < 2 ^ 32
    → count_of (build_usb_whitelist config []) k ≡ summed config.whitelist.devices k
unfolding count_of build_usb_whitelist add_allowed get
allowed-summed config k h =
    let fits : count [] k + summed config.whitelist.devices k < 2 ^ 32 = omega (arith, h) in
    let all = count-add_entries config.whitelist.devices [] k fits in ground arith

-- Covering one more device of a USB entry that is listed succeeds, and raises what the daemon
-- allows of the first listing's identity by exactly one where that listing alone counts fewer than
-- are present, however much the other listings of the identity add to it; what the daemon allows of
-- any other identity stays, and so does everything where the listing counts as many as are present.
-- The sums fit.
pub cover_raises_first :
    (config : Config) (text entry : Text) (present : ℕ) (e : WhitelistEntry)
    → normalise usb text ≡ ok entry
    → first_listed entry config.whitelist.devices ≡ some e
    → ((k : UsbDeviceId) → summed config.whitelist.devices k + 1 < 2 ^ 32)
    → (config' : Config) × (list_cover_one config usb text present ≡ ok (entry, config'))
      × ((k : UsbDeviceId)
          → count_of (build_usb_whitelist config' []) k
            ≡ count_of (build_usb_whitelist config []) k
              + (if ltb e.count present && id_of e == k then 1 else 0))
cover_raises_first config text entry present e n f room =
    let config' : Config = change_count (raise_below present) entry config in
    (
      config',
      covers_listed config text entry present e n f,
      λ k.
          let sums = summed-change present entry config.whitelist.devices k e f in
          let fits = room k in
          let before = allowed-summed config k (omega (arith, fits)) in
          let one : (if ltb e.count present && id_of e == k then 1 else 0) ≤ 1 = ground arith in
          let after = allowed-summed config' k (omega (arith, fits, sums, one)) in
          omega (arith, sums, before, after),
    )
