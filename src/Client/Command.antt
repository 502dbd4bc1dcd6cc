-- ===== src/Client/Command.antt =====
-- crates/plugkill-gui/src/commands.rs: the commands of the tray and the dashboard, and how long
-- crates/plugkill-core/src/ipc.rs waits for an answer to one.
pub mod Gated
use plugkill.Prelude.{
  ℕ, Bool, true, false, not, ◌&&◌, ◌||◌, Option, none, some, List, [], ◌∷◌, ◌++◌, map, contains,
  eqb, if◌then◌else◌, ◌==◌, list_eq, nat_eq, Text, codes, from_secs, to_ascii_lowercase,
  has_substring,
}
use plugkill.Ipc.{
  Request, disarm, arm_now, learn_mode, enforce_mode, reload, pair, allow_last, revoke, revoke_all,
  kill, status, devices, violations,
}

pub data Command : Type 0 where
  arm : Command
  disarm_for : ℕ → Command
  learn enforce reload_config : Command
  open_pairing : ℕ → Option ℕ → Command
  allow_latest : Option ℕ → Command
  revoke_one : Text → Command
  revoke_every : Command

-- `Command::request`, as the request that the daemon parses from it
unfoldable pub request : Command → Request
request arm = arm_now
request (disarm_for secs) = disarm secs
request learn = learn_mode
request enforce = enforce_mode
request reload_config = reload
request (open_pairing window_secs for_secs) = pair window_secs for_secs
request (allow_latest for_secs) = allow_last for_secs
request (revoke_one selector) = revoke selector
request revoke_every = revoke_all

-- The `command` field of a request, which names its variant.
unfoldable pub command_of : Request → Text
command_of status = codes "status"
command_of devices = codes "devices"
command_of violations = codes "violations"
command_of (disarm timeout_secs) = codes "disarm"
command_of arm_now = codes "arm"
command_of learn_mode = codes "learn"
command_of enforce_mode = codes "enforce"
command_of reload = codes "reload"
command_of (pair window_secs for_secs) = codes "pair"
command_of (allow_last for_secs) = codes "allow_last"
command_of (revoke selector) = codes "revoke"
command_of revoke_all = codes "revoke_all"
command_of (kill reason) = codes "kill"

abbrev pub gated_commands : List Text
gated_commands =
    codes "disarm" ∷ codes "learn" ∷ codes "reload" ∷ codes "pair" ∷ codes "allow_last" ∷ []

-- `Command::is_gated`
unfoldable pub is_gated : Command → Bool
unfolding contains request command_of
is_gated (open_pairing window_secs for_secs) =
    if eqb window_secs 0
    then false
    else contains gated_commands (command_of (request (open_pairing window_secs for_secs)))
is_gated command = contains gated_commands (command_of (request command))

abbrev pub read_timeout_short : ℕ
read_timeout_short = from_secs 5

abbrev pub auth_read_timeout : ℕ
auth_read_timeout = from_secs 120

-- `read_timeout`, on a request by its variant
unfoldable pub read_timeout : Request → ℕ
unfolding contains command_of from_secs
read_timeout (pair window_secs for_secs) =
    if eqb window_secs 0
    then read_timeout_short
    else if contains gated_commands (command_of (pair window_secs for_secs))
    then auth_read_timeout
    else read_timeout_short
read_timeout req =
    if contains gated_commands (command_of req) then auth_read_timeout else read_timeout_short

unfoldable pub name : Command → Text
name arm = codes "Arm"
name (disarm_for secs) = codes "Disarm"
name learn = codes "Learn mode"
name enforce = codes "Enforce mode"
name reload_config = codes "Reload"
name (open_pairing window_secs for_secs) =
    if eqb window_secs 0 then codes "Close pairing" else codes "Pair"
name (allow_latest for_secs) = codes "Allow last"
name (revoke_one selector) = codes "Revoke"
name revoke_every = codes "Revoke all"
