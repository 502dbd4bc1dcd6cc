-- ===== src/Network/LinkDown.antt =====
-- What the status reply counts as down is what the poll loop fires on.
use plugkill.Prelude.{
  ◌<◌, ◌≡◌, ◌↔◌, refl, true, ◌&&◌, none, some, List, [], ◌∷◌, arith, Memᴰ, find_map, find_map-some,
  ◌≢◌, ltb, Option-cases, filter, length, get, list_eq, nat_eq, Text, is_some, sym, inl, inr,
}
use plugkill.Network.{
  LinkState, up, down, unknown, NetworkSnapshot, NetworkChange, is_up, is_lost, check_link,
  detect_link_down, count_down, links_down,
}

-- Whether the loop's body fires on an entry.
check_link-fires :
    (current : NetworkSnapshot) (e : Text × LinkState)
    → is_some (check_link current e) ≡ (is_up e.1 && is_lost (get e.0 current.interfaces))
unfolding check_link
check_link-fires current e = ground arith

abbrev counted : NetworkSnapshot → List (Text × LinkState) → List (Text × LinkState)
counted current =
    filter (λ (e : Text × LinkState). is_up e.1 && is_lost (get e.0 current.interfaces))

fires_where_down :
    (current : NetworkSnapshot) (l : List (Text × LinkState))
    → is_some (find_map (check_link current) l) ≡ ltb 0 (length (counted current l))
unfolding find_map filter
fires_where_down current [] = ground arith
fires_where_down current (e ∷ l) =
    ground (arith, fires_where_down current l, check_link-fires current e)

check_link-reports :
    (current : NetworkSnapshot) (iface : Text) (state : LinkState) (c : NetworkChange)
    → check_link current (iface, state) ≡ some c
    → (state ≡ up) × (iface ≡ c.interface) × (is_lost (get iface current.interfaces) ≡ true)
unfolding check_link is_up
check_link-reports current iface up c h = (refl, ground arith, ground arith)
check_link-reports current iface down c h = ground arith
check_link-reports current iface unknown c h = ground arith

-- The search fires exactly when the status reply counts a link as down, and the link that it names
-- was up in the baseline and is down or gone now.
link_down_counted :
    (current baseline : NetworkSnapshot)
    → ((detect_link_down current baseline ≢ none) ↔ (0 < links_down current (some baseline)))
      × ((c : NetworkChange)
          → detect_link_down current baseline ≡ some c
          → Memᴰ (c.interface, up) baseline.interfaces
            × (is_lost (get c.interface current.interfaces) ≡ true))
link_down_counted current baseline =
    let f = fires_where_down current baseline.interfaces in
    (
      (unfold detect_link_down links_down count_down in
          (
            λ n. elim (Option-cases (find_map (check_link current) baseline.interfaces)) [
              | inl e ↦ absurd (n e)
              | inr (c, e) ↦ ground arith
            ],
            λ l h. ground arith,
          )),
      λ c h.
          let ((iface, state), m, q) =
            find_map-some (check_link current) baseline.interfaces {b = c}
              (unfold detect_link_down in h) in
          let (u, i, g) = check_link-reports current iface state c q in
          (rw (sym i, sym u) m, rw (sym i) g),
    )
