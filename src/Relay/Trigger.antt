-- ===== src/Relay/Trigger.antt =====
-- crates/plugkill-relay/src/watcher.rs and `classify` of trigger.rs: what the relay makes of the
-- daemon's answers. An answer is what the readers of its JSON value find in it.
pub mod Rise
use plugkill.Prelude.{
  ℕ, Bool, true, false, not, ◌||◌, Option, none, some, [], ◌++◌, ltb, if◌then◌else◌, ◌==◌, nat_eq,
  list_eq, list_beq, Text, codes, Result, ok, err, List,
}
use plugkill.Relay.Protocol.{Packet, PacketType, kill, ack, deserialize}
use plugkill.Relay.Listener.{PeerConfig, sender_of}

-- The fields of `data` in the answer to `status`.
pub record StatusData : Type 0 where
  pub armed : Option Bool
  pub mode : Option Text
  pub violations_logged : Option ℕ

pub record Answer : Type 0 where
  pub ok_field : Option Bool
  pub error : Option Text
  pub status : Option StatusData

pub record Watcher : Type 0 where
  pub last_violations : Option ℕ

unfoldable pub new_watcher : Watcher
new_watcher = record { last_violations = none }

unfoldable pub unwrap_or {ℓ} : {A : Type ℓ} → Option A → A → A
unwrap_or none d = d
unwrap_or (some a) d = a

unfoldable pub rises : Option ℕ → ℕ → Option ℕ
rises none violations = none
rises (some prev) violations = if ltb prev violations then some violations else none

-- `poll` on an answer's data
unfoldable pub read_status : Watcher → StatusData → Option ℕ × Watcher
unfolding unwrap_or rises list_beq
read_status self status =
    let violations = unwrap_or status.violations_logged 0 in
    let self' : Watcher = record { last_violations = some violations } in
    if not (unwrap_or status.armed false) || not (unwrap_or status.mode [] == codes "enforce")
    then (none, self')
    else (rises self.last_violations violations, self')

unfoldable pub poll : Watcher → Result Answer → Option ℕ × Watcher
unfolding read_status
poll self (err e) = (none, self)
poll self (ok resp) =
    if not (unwrap_or resp.ok_field false)
    then (none, self)
    else elim resp.status [ none ↦ (none, self) | some status ↦ read_status self status ]

pub data Outcome : Type 0 where
  accepted : Outcome
  poweroff : Text → Outcome

unfoldable pub classify : Result Answer → Outcome
unfolding unwrap_or
classify (err e) = poweroff (codes "failed to send kill command: " ++ e)
classify (ok value) =
    if unwrap_or value.ok_field false
    then accepted
    else poweroff
        (codes "daemon refused the kill command: " ++ unwrap_or value.error (codes "unknown error"))
