-- ===== src/Client/Show.antt =====
-- crates/plugkill-gui/src/status.rs and poll.rs: the one state that the tray and the dashboard show,
-- and what the client's loop fetches.
pub mod Tells
use plugkill.Prelude.{
  ℕ, ◌+◌, ◌-◌, ◌/◌, ◌%◌, Bool, true, false, not, ◌&&◌, ◌||◌, Option, none, some, List, ◌++◌, ltb,
  eqb, if◌then◌else◌, ◌==◌, list_eq, nat_eq, Text, codes, to_dec, from_secs,
}
use plugkill.Ipc.{format_duration}
use plugkill.Socket.Status.{Pending, Status}

abbrev pub stall_ms : ℕ
stall_ms = 30_000

pub data TrayState : Type 0 where
  down : Bool → TrayState
  disarmed : ℕ → TrayState
  kill_pending : Text → Text → ℕ → TrayState
  dry_run learning armed : TrayState

abbrev pub is_stalled : Option ℕ → Bool
is_stalled none = false
is_stalled (some ms) = ltb stall_ms ms

abbrev or_zero : Option ℕ → ℕ
or_zero none = 0
or_zero (some n) = n

-- The tests after the grace period.
abbrev at_rest : Status → TrayState
at_rest s = if s.dry_run then dry_run else if s.mode == codes "learn" then learning else armed

-- The tests from the stalled loop on.
unfoldable pub from_armed : Status → TrayState
from_armed s =
    if is_stalled s.last_poll_ms_ago
    then down true
    else if (s.mode == codes "enforce") && not s.dry_run
    then elim s.pending_violation [
      | none ↦ at_rest s
      | some p ↦ kill_pending p.bus p.reason p.secs_left
    ]
    else at_rest s

-- `TrayState::from_status`
unfoldable pub from_status : Option Status → TrayState
unfolding from_armed
from_status none = down false
from_status (some s) =
    if not s.armed then disarmed (or_zero s.disarm_remaining_secs) else from_armed s

unfoldable pub title_and_detail : TrayState → Option Status → Text × Text
unfolding format_duration to_dec
title_and_detail (down false) s =
    (codes "Daemon not running", codes "no answer on the control socket")
title_and_detail (down true) s =
    (codes "Daemon not polling", codes "the socket answers but the poll loop has stopped")
title_and_detail (disarmed secs_left) s =
    (codes "Disarmed", codes "re-arms in " ++ format_duration secs_left)
title_and_detail (kill_pending bus reason secs_left) s =
    (codes "Kill in " ++ (to_dec secs_left ++ codes " s"), reason)
title_and_detail dry_run s = (codes "Dry run", codes "violations are logged, nothing is killed")
title_and_detail learning s =
    let n : ℕ = elim s [ none ↦ 0 | some st ↦ st.violations_logged ] in
    (
      codes "Learning",
      if eqb n 0
          then codes "not killing anything"
          else if eqb n 1
          then codes "1 violation logged"
          else to_dec n ++ codes " violations logged",
    )
title_and_detail armed s = (codes "Armed", codes "enforce mode")

unfoldable pub needs_attention : TrayState → Bool
needs_attention (down stalled) = true
needs_attention (disarmed secs_left) = true
needs_attention (kill_pending bus reason secs_left) = true
needs_attention _ = false

unfoldable pub format_uptime : ℕ → Text
unfolding to_dec
format_uptime secs =
    let d = secs / 86_400 in
    let h = secs % 86_400 / 3600 in
    let m = secs % 3600 / 60 in
    if ltb 0 d
    then to_dec d ++ (codes "d " ++ (to_dec h ++ (codes "h " ++ (to_dec m ++ codes "m"))))
    else if ltb 0 h
    then to_dec h ++ (codes "h " ++ (to_dec m ++ codes "m"))
    else if ltb 0 m
    then to_dec m ++ codes "m"
    else to_dec secs ++ codes "s"

abbrev pub notice_ttl : ℕ
notice_ttl = from_secs 30

-- `at.elapsed() > NOTICE_TTL`, at the clock reading `now`
unfoldable pub notice_expired : ℕ → ℕ → Bool
unfolding from_secs
notice_expired at now = ltb notice_ttl (now - at)

abbrev pub is_kill_pending : TrayState → Bool
is_kill_pending (kill_pending bus reason secs_left) = true
is_kill_pending _ = false

unfoldable pub next_blink : TrayState → Bool → Bool
next_blink state blink_on = is_kill_pending state && not blink_on

-- Whether a tick walks the buses, and whether it asks for the violations.
unfoldable pub fetches : ℕ → Bool → Bool → Bool → Bool → Bool × Bool
fetches tick dashboard settings was_dashboard was_settings =
    let opened = (dashboard && not was_dashboard) || (settings && not was_settings) in
    let walk = (dashboard || settings) && (eqb (tick % 4) 0 || opened) in (walk, walk && settings)
