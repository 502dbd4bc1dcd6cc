-- ===== src/Pci.antt =====
-- crates/plugkill-core/src/pci.rs: snapshots of PCI selectors, the ignore list and the comparison
-- with a baseline.
pub mod Detect
use plugkill.Prelude.{
  Bool, true, not, ◌&&◌, Option, none, some, List, if◌then◌else◌, or_else, list_eq, nat_eq,
  find_map, contains, any, filter, Text, is_empty, has_substring,
}

pub record PciSnapshot : Type 0 where
  pub devices : List Text

pub data PciChange : Type 0 where
  added : Text → PciChange
  removed : Text → PciChange

-- The body of the first loop of `detect_changes`.
unfoldable pub check_present : PciSnapshot → Text → Option PciChange
check_present baseline d = if not (contains baseline.devices d) then some (added d) else none

-- The body of the second loop.
unfoldable pub check_baseline : PciSnapshot → Text → Option PciChange
check_baseline self d = if not (contains self.devices d) then some (removed d) else none

unfoldable pub detect_changes : PciSnapshot → PciSnapshot → Option PciChange
unfolding find_map contains check_present check_baseline
detect_changes self baseline =
    or_else (find_map (check_present baseline) self.devices)
      (find_map (check_baseline self) baseline.devices)

unfoldable pub is_ignored : Text → List Text → Bool
unfolding any has_substring
is_ignored selector ignore = any (λ ig. not (is_empty ig) && has_substring selector ig) ignore

-- `linux::enumerate`, over the selectors that the directory walk found.
unfoldable pub enumerate : List Text → List Text → PciSnapshot
unfolding filter is_ignored
enumerate selectors ignore = record {
  devices = filter (λ sel. not (is_ignored sel ignore)) selectors;
}
