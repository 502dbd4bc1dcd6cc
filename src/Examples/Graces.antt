-- ===== src/Examples/Graces.antt =====
-- The theorems on the lid, the network and the configuration, at concrete inputs.
use plugkill.Prelude.{
  ℕ, ◌+◌, ◌≤◌, ◌≡◌, refl, true, [], ◌∷◌, codes, ok, from_secs, get, list_beq, find_map, list_eq,
  nat_eq,
}
use plugkill.Config.{
  Config, LidPolicy, NetworkPolicy, default_config, default_general, default_destruction,
}
use plugkill.Config.Validate.{validate, clamp}
use plugkill.Config.Validate.Bounds.{IsValid, validate-IsValid}
use plugkill.State.{DaemonState, enforce, new_state}
use plugkill.State.Waiting.{HasHeldSince, after}
use plugkill.Lid
use plugkill.Lid.{opened, closed, check_lid}
use plugkill.Lid.Waiting.{LidPoll, IsClosedPoll, lid_waits_grace}
use plugkill.Network
use plugkill.Network.{NetworkSnapshot, up, down}
use plugkill.Network.Check.{check_network}
use plugkill.Network.Check.Waiting.{NetworkPoll, IsCut, network_waits_grace}

abbrev start : DaemonState
start = new_state enforce (codes "/etc/plugkill/config.toml") 0

abbrev watching : Config
watching = record default_config {
  general = record default_general { watch_lid = true; watch_network = true };
  lid = record { policy = LidPolicy.kill; grace_secs = 2 };
  network = record { policy = NetworkPolicy.kill; grace_secs = 2; interfaces = [] };
}

abbrev shut : ℕ → LidPoll
shut now = record { at = from_secs now; lid = closed }

lid_fires :
    (Lid.Waiting.poll watching opened
      (after (Lid.Waiting.poll watching opened) start (shut 1 ∷ []))
      (shut 3)).0
    ≡ true
unfolding check_lid default_config new_state from_secs
lid_fires = refl

lid_waits_grace_example :
    (t : ℕ) × (HasHeldSince IsClosedPoll (λ q. q.at) t (shut 3 ∷ shut 1 ∷ [])
      × (t + from_secs watching.lid.grace_secs ≤ from_secs 3))
unfolding default_config new_state
lid_waits_grace_example =
    lid_waits_grace watching opened refl refl start (shut 3) (shut 1 ∷ []) refl lid_fires

abbrev wired : NetworkSnapshot
wired = record { interfaces = (codes "eth0", up) ∷ [] }

abbrev cut : ℕ → NetworkPoll
cut now = record { at = from_secs now; links = record { interfaces = (codes "eth0", down) ∷ [] } }

network_fires :
    (Network.Check.Waiting.poll watching wired
      (after (Network.Check.Waiting.poll watching wired) start (cut 1 ∷ []))
      (cut 3)).0
    ≡ true
unfolding check_network default_config new_state from_secs get find_map list_beq
network_fires = refl

network_waits_grace_example :
    (t : ℕ) × (HasHeldSince (IsCut wired) (λ q. q.at) t (cut 3 ∷ cut 1 ∷ [])
      × (t + from_secs watching.network.grace_secs ≤ from_secs 3))
unfolding default_config new_state
network_waits_grace_example =
    network_waits_grace watching wired refl refl start (cut 3) (cut 1 ∷ []) refl network_fires

abbrev written : Config
written = record default_config {
  general = record default_general { sleep_ms = 5 };
  destruction = record default_destruction { files_to_remove = codes "/root/key" ∷ [] };
}

passes : validate written ≡ ok (clamp written)
unfolding validate default_config list_beq
passes = refl

validate-IsValid_example : IsValid (clamp written)
validate-IsValid_example = validate-IsValid written (clamp written) passes
