-- ===== src/Display.antt =====
-- crates/plugkill-core/src/display.rs: connectors, the monitors on them, and the comparison of two
-- snapshots.
pub mod Detect
use plugkill.Prelude.{
  ℕ, Bool, true, false, not, ◌&&◌, Option, none, some, List, [], ◌∷◌, map, if◌then◌else◌, or_else,
  ◌==◌, Eq, nat_eq, list_eq, option_eq, find, find_map, any, filter, Text, is_empty, has_substring,
}
use plugkill.Edid.{EdidId, edid_id_eq}

pub record DisplayConnector : Type 0 where
  pub connector : Text
  pub connected : Bool
  pub edid : Option EdidId

pub record DisplaySnapshot : Type 0 where
  pub connectors : List DisplayConnector
  pub opaque_generation : Option ℕ

pub data DisplayChange : Type 0 where
  appeared : Text → DisplayChange
  disappeared : Text → DisplayChange
  connected_to : Text → DisplayChange
  disconnected : Text → DisplayChange
  replaced : Text → Option EdidId → DisplayChange
  topology_changed : DisplayChange

unfoldable pub get_connector : DisplaySnapshot → Text → Option DisplayConnector
unfolding find_map
get_connector s connector = find (λ c. c.connector == connector) s.connectors

-- `==` on `bool`
abbrev pub same : Bool → Bool → Bool
same true b = b
same false b = not b

-- The rest of the first loop's body, once the baseline has the connector.
unfoldable pub compare_connector : DisplayConnector → DisplayConnector → Option DisplayChange
compare_connector c was =
    if not (same c.connected was.connected)
    then some (if c.connected then connected_to c.connector else disconnected c.connector)
    else if c.connected && not (c.edid == was.edid)
    then some (replaced c.connector c.edid)
    else none

-- The body of the first loop of `detect_changes`.
unfoldable pub check_connector : DisplaySnapshot → DisplayConnector → Option DisplayChange
unfolding get_connector compare_connector
check_connector baseline c = elim (get_connector baseline c.connector) [
  | none ↦ some (appeared c.connector)
  | some was ↦ compare_connector c was
]

-- The body of the second loop.
unfoldable pub check_gone : DisplaySnapshot → DisplayConnector → Option DisplayChange
unfolding get_connector
check_gone current was = elim (get_connector current was.connector) [
  | none ↦ some (disappeared was.connector)
  | some c ↦ none
]

unfoldable pub detect_changes : DisplaySnapshot → DisplaySnapshot → Option DisplayChange
unfolding find_map check_connector check_gone
detect_changes self baseline =
    if not (self.opaque_generation == baseline.opaque_generation)
    then some topology_changed
    else or_else (find_map (check_connector baseline) self.connectors)
        (find_map (check_gone self) baseline.connectors)

unfoldable pub is_ignored : Text → List Text → Bool
unfolding any has_substring
is_ignored connector ignore = any (λ ig. not (is_empty ig) && has_substring connector ig) ignore
