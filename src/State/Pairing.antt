-- ===== src/State/Pairing.antt =====
-- The pairing window, and the choice of the grace period that runs out first.
use plugkill.Prelude.{
  ℕ, ◌≤◌, ◌<◌, ◌≡◌, ◌≢◌, ◌⊎◌, refl, Bool, true, false, Option, none, some, arith, ◌==◌,
  Option-cases, inl, inr, if◌then◌else◌, Text, codes,
}
use plugkill.Allowances.{DeviceRef, device_ref_eq, paired, Allowance, new_allowance, with_name, add}
use plugkill.Allowances.Table.{IsTable, entry, entry-add}
use plugkill.State.{
  DaemonState, PairingWindow, Grace, open_window, display_limit, admit_paired, soonest_grace,
}

module _ (st : DaemonState) (id : DeviceRef) (name : Option Text) (now : ℕ)
    (has_identity : Bool) where
  -- A refused admission changes nothing.
  admit_refused_unchanged :
      (admit_paired st id name now has_identity).1 ≡ false
      → (admit_paired st id name now has_identity).0 ≡ st
  unfolding admit_paired
  admit_refused_unchanged h = ground arith

-- What an admission puts in the table.
abbrev pub pairing_grant : DeviceRef → Option Text → ℕ → Option ℕ → Allowance
pairing_grant id name now ttl = with_name (new_allowance id paired now ttl) name

closed_admits_nothing :
    (st : DaemonState)
    → st.pairing ≡ none
    → (id : DeviceRef) (name : Option Text) (now : ℕ) (has_identity : Bool)
    → (admit_paired st id name now has_identity).1 ≡ false
unfolding admit_paired
closed_admits_nothing st h id name now has_identity = ground arith

-- Under an open window and for a device that the platform can identify, `admit_paired` admits the
-- device: it gives it an allowance with the window's expiry, leaves every other device's allowance
-- as it was, and closes the window, so that no later call admits another device.
pub pairing_admits_one :
    (st : DaemonState) (w : PairingWindow) (id : DeviceRef) (name : Option Text) (now : ℕ)
    (has_identity : Bool)
    → IsTable st.allowances
    → st.pairing ≡ some w
    → now < w.until
    → display_limit id has_identity ≡ none
    → let (st', admitted) = admit_paired st id name now has_identity in
      (admitted ≡ true)
      × ((j : DeviceRef)
          → entry st'.allowances j
            ≡ (if id == j then some (pairing_grant id name now w.ttl) else entry st.allowances j))
      × ((j : DeviceRef) (n : Option Text) (t : ℕ) (b : Bool)
          → (admit_paired st' j n t b).1 ≡ false)
pairing_admits_one st w id name now has_identity v p o d =
    let a = pairing_grant id name now w.ttl in
    let st' = record st { allowances = (add st.allowances a).1; pairing = none } in
    let e : admit_paired st id name now has_identity ≡ (st', true) =
      unfold admit_paired in ground arith in
    rw e (
      refl,
      (unfold with_name new_allowance in (entry-add st.allowances v a).2),
      closed_admits_nothing st' refl,
    )

-- With no window open, or for a device that the platform cannot identify, nothing is admitted and
-- nothing changes.
pub pairing_refuses :
    (st : DaemonState) (id : DeviceRef) (name : Option Text) (now : ℕ) (has_identity : Bool)
    → (open_window st.pairing now ≡ none) ⊎ (display_limit id has_identity ≢ none)
    → admit_paired st id name now has_identity ≡ (st, false)
unfolding admit_paired
pairing_refuses st id name now has_identity (inl h) = ground arith
pairing_refuses st id name now has_identity (inr h) =
    elim (Option-cases (display_limit id has_identity)) [
      | inl e ↦ absurd (h e)
      | inr (l, e) ↦ ground arith
    ]

-- Whether the grace of one of the buses matters to the caller and is running.
abbrev pub IsCounted : (Text → Bool) → Text → Option Grace → Grace → Type 0
IsCounted counts bus grace g = (counts bus ≡ true) × (grace ≡ some g)

-- What the choice among the buses promises.
abbrev pub IsSoonest : DaemonState → (Text → Bool) → Option (Text × Grace) → Type 0
IsSoonest st counts none =
    (g : Grace)
    → (¬ IsCounted counts (codes "power") st.power_grace g)
      × (¬ IsCounted counts (codes "network") st.network_grace g)
      × (¬ IsCounted counts (codes "lid") st.lid_grace g)
IsSoonest st counts (some (b, best)) =
    (((b ≡ codes "power") × IsCounted counts (codes "power") st.power_grace best)
      ⊎ (((b ≡ codes "network") × IsCounted counts (codes "network") st.network_grace best)
          ⊎ ((b ≡ codes "lid") × IsCounted counts (codes "lid") st.lid_grace best)))
    × ((g : Grace) → IsCounted counts (codes "power") st.power_grace g → best.until ≤ g.until)
    × ((g : Grace) → IsCounted counts (codes "network") st.network_grace g → best.until ≤ g.until)
    × ((g : Grace) → IsCounted counts (codes "lid") st.lid_grace g → best.until ≤ g.until)

-- `soonest_grace` returns a running grace of a bus that the caller counts, under its name, and no grace of such a
-- bus runs out earlier; it returns nothing exactly when no such bus has a running grace.
pub soonest_grace-IsSoonest :
    (st : DaemonState) (counts : Text → Bool) (r : Option (Text × Grace))
    → soonest_grace st counts ≡ r
    → IsSoonest st counts r
unfolding soonest_grace
soonest_grace-IsSoonest st counts none h = λ g. (ground arith, ground arith, ground arith)
soonest_grace-IsSoonest st counts (some (b, best)) h =
    (ground arith, λ g c. ground arith, λ g c. ground arith, λ g c. ground arith)
