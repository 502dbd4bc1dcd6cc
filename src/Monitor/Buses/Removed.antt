-- ===== src/Monitor/Buses/Removed.antt =====
-- An allowance for a PCI device that the baseline already holds.
use plugkill.Prelude.{
  ◌≡◌, refl, arith, Bool, true, false, not, ◌&&◌, ◌||◌, none, some, List, [], ◌∷◌, ◌++◌, filter_map,
  contains, contains-filter, any, list_eq, nat_eq, Text, ok, Bool-cases, Option-cases, inl, inr,
  is_empty, has_substring, text_eq→eq, starts_with, ap,
}
use plugkill.Config
use plugkill.Config.{Config}
use plugkill.Allowances.{DeviceRef, pci}
use plugkill.State.{Violation, event_violation}
use plugkill.Pci
use plugkill.Pci.{PciSnapshot, PciChange, is_ignored, enumerate}
use plugkill.Pci.Detect.{Describes, pci_report, pci_silence}
use plugkill.Monitor.Allowed.{pci_ignore, pci_of}
use plugkill.Monitor.Buses.{enumerate_pci, pci_violation, compare_pci, check_pci}

any-append : (p : Text → Bool) (xs ys : List Text) → any p (xs ++ ys) ≡ (any p xs || any p ys)
unfolding any
any-append p [] ys = refl
any-append p (x ∷ xs) ys = ground (arith, any-append p xs ys)

starts_with_self : (s : Text) → starts_with s s ≡ true
unfolding starts_with
starts_with_self [] = refl
starts_with_self (c ∷ s) = ground (arith, starts_with_self s)

has_substring_self : (s : Text) → has_substring s s ≡ true
unfolding has_substring
has_substring_self [] = refl
has_substring_self (c ∷ s) = ground (arith, starts_with_self (c ∷ s))

-- Whatever else is ignored, a token of the list masks its own selector.
ignored_self :
    (sel : Text) (before after : List Text)
    → is_empty sel ≡ false
    → is_ignored sel (before ++ sel ∷ after) ≡ true
unfolding is_ignored any
ignored_self sel before after h =
    let masks = λ (ig : Text). not (is_empty ig) && has_substring sel ig in
    ground (arith, any-append masks before (sel ∷ after), has_substring_self sel)

-- A longer list masks no less.
ignored_more :
    (d : Text) (before after : List Text)
    → is_ignored d before ≡ true
    → is_ignored d (before ++ after) ≡ true
unfolding is_ignored
ignored_more d before after h =
    ground (arith, any-append (λ ig. not (is_empty ig) && has_substring d ig) before after)

module _ (cfg : Config) (selectors : List Text) (sel : Text) (others : List DeviceRef) where
  abbrev baseline : PciSnapshot
  baseline = enumerate selectors cfg.pci.ignore

  abbrev current : PciSnapshot
  current = enumerate selectors (pci_ignore cfg (pci sel ∷ others))

  listed :
      (d : Text) (ignore : List Text)
      → contains (enumerate selectors ignore).devices d
        ≡ (contains selectors d && not (is_ignored d ignore))
  unfolding enumerate
  listed d ignore =
      contains-filter (λ sel. not (is_ignored sel ignore)) selectors d
        (λ b e. ap (λ (t : Text). not (is_ignored t ignore)) (text_eq→eq b d e))

  not_added : (d : Text) → contains current.devices d ≡ true → contains baseline.devices d ≡ true
  not_added d h =
      let l = listed d cfg.pci.ignore in
      let m = listed d (pci_ignore cfg (pci sel ∷ others)) in
      elim (Bool-cases (is_ignored d cfg.pci.ignore)) [
        | inr e ↦ ground arith
        | inl e ↦
            let more : is_ignored d (pci_ignore cfg (pci sel ∷ others)) ≡ true =
              unfold pci_ignore in ignored_more d cfg.pci.ignore _ e in
            ground arith
      ]

  hidden : is_empty sel ≡ false → contains current.devices sel ≡ false
  hidden h =
      let more : is_ignored sel (pci_ignore cfg (pci sel ∷ others)) ≡ true =
        unfold pci_ignore filter_map pci_of in ignored_self sel cfg.pci.ignore _ h in
      ground (arith, listed sel (pci_ignore cfg (pci sel ∷ others)))

  change_found :
      is_empty sel ≡ false
      → contains baseline.devices sel ≡ true
      → (d : Text) × (Pci.detect_changes current baseline ≡ some (Pci.removed d))
  change_found h c = elim (Option-cases (Pci.detect_changes current baseline)) [
    | inl e ↦ let same = (pci_silence current baseline).0 e sel in absurd (ground (arith, hidden h))
    | inr (change, e) ↦ of_change change e (pci_report current baseline change e)
  ]
    where
      of_change :
          (change : PciChange)
          → Pci.detect_changes current baseline ≡ some change
          → Describes current baseline change
          → (d : Text) × (Pci.detect_changes current baseline ≡ some (Pci.removed d))
      of_change (Pci.added d) e (here, gone) = absurd (ground (arith, not_added d here))
      of_change (Pci.removed d) e r = (d, e)

  -- Under the kill policy, an allowance for a PCI device that the baseline holds makes the next
  -- check of unchanged hardware report a removal, which names no device and is no appearance.
  pub allowed_pci_reads_removed :
      cfg.general.watch_pci ≡ true
      → cfg.pci.policy ≡ Config.PciPolicy.kill
      → is_empty sel ≡ false
      → contains baseline.devices sel ≡ true
      → (v : Violation) × (check_pci cfg (some baseline) (pci sel ∷ others) (ok selectors)
          ≡ (some v, some baseline))
        × (v.id ≡ none)
        × (v.appeared ≡ false)
  unfolding check_pci compare_pci enumerate_pci
  allowed_pci_reads_removed w p h c =
      let (d, e) = change_found h c in
      (
        pci_violation (Pci.removed d),
        ground arith,
        unfold pci_violation event_violation in refl,
        unfold pci_violation event_violation in refl,
      )
