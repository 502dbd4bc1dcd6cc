-- ===== src/Network.antt =====
-- crates/plugkill-core/src/network.rs: the interfaces' link states and the search for a link that
-- went down; `links_down` of crates/plugkill/src/socket.rs. A snapshot is the map's entries in the
-- order of its iteration.
pub mod Check
pub mod LinkDown
use plugkill.Prelude.{
  ℕ, Bool, true, false, not, ◌&&◌, Option, none, some, List, list_eq, nat_eq, find_map, filter,
  length, get, Text, if◌then◌else◌,
}

pub data LinkState : Type 0 where
  up down unknown : LinkState

pub record NetworkSnapshot : Type 0 where
  pub interfaces : List (Text × LinkState)

pub record NetworkChange : Type 0 where
  pub interface : Text
  pub from : LinkState
  pub to : LinkState

unfoldable pub is_up : LinkState → Bool
is_up up = true
is_up _ = false

-- Down now, or gone.
unfoldable pub is_lost : Option LinkState → Bool
is_lost none = true
is_lost (some down) = true
is_lost (some _) = false

-- The body of the loop of `detect_link_down`.
unfoldable pub check_link : NetworkSnapshot → Text × LinkState → Option NetworkChange
unfolding get is_up is_lost
check_link current (iface, baseline_state) =
    if not (is_up baseline_state)
    then none
    else if is_lost (get iface current.interfaces)
    then some (record { interface = iface; from = up; to = down })
    else none

unfoldable pub detect_link_down : NetworkSnapshot → NetworkSnapshot → Option NetworkChange
unfolding find_map check_link
detect_link_down self baseline = find_map (check_link self) baseline.interfaces

-- `links_down` once there is a baseline.
unfoldable pub count_down : NetworkSnapshot → NetworkSnapshot → ℕ
unfolding filter get is_up is_lost
count_down current bl = length (
    filter (λ (e : Text × LinkState). is_up e.1 && is_lost (get e.0 current.interfaces))
      bl.interfaces)

unfoldable pub links_down : NetworkSnapshot → Option NetworkSnapshot → ℕ
unfolding count_down
links_down current none = 0
links_down current (some bl) = count_down current bl
