-- ===== src/Client/Command/Gated.antt =====
-- The commands that the client expects a password prompt for, and those that the daemon gates.
use plugkill.Prelude.{
  ◌≡◌, refl, arith, if◌then◌else◌, is_some, contains, list_eq, list_beq, nat_eq, eqb, Bool-cases,
  inl, inr,
}
use plugkill.Ipc.{
  Request, disarm, arm_now, learn_mode, enforce_mode, reload, pair, allow_last, revoke, revoke_all,
  kill, status, devices, violations,
}
use plugkill.Socket.Dispatch.{gated_action}
use plugkill.Client.Command.{
  Command, request, command_of, is_gated, read_timeout, read_timeout_short, auth_read_timeout,
}

waits :
    (req : Request)
    → read_timeout req
      ≡ (if is_some (gated_action req) then auth_read_timeout else read_timeout_short)
unfolding read_timeout gated_action contains command_of list_beq
waits status = refl
waits devices = refl
waits violations = refl
waits (disarm timeout_secs) = refl
waits arm_now = refl
waits learn_mode = refl
waits enforce_mode = refl
waits reload = refl
waits (pair window_secs for_secs) = elim (Bool-cases (eqb window_secs 0)) [
  | inl e ↦ ground arith
  | inr e ↦ ground arith
]
waits (allow_last for_secs) = refl
waits (revoke selector) = refl
waits revoke_all = refl
waits (kill reason) = refl

expects : (c : Command) → is_gated c ≡ is_some (gated_action (request c))
unfolding is_gated gated_action request contains command_of list_beq
expects Command.arm = refl
expects (Command.disarm_for secs) = refl
expects Command.learn = refl
expects Command.enforce = refl
expects Command.reload_config = refl
expects (Command.open_pairing window_secs for_secs) = elim (Bool-cases (eqb window_secs 0)) [
  | inl e ↦ ground arith
  | inr e ↦ ground arith
]
expects (Command.allow_latest for_secs) = refl
expects (Command.revoke_one selector) = refl
expects Command.revoke_every = refl

-- The client expects a prompt for a command exactly when the daemon gates it, and every request,
-- whoever sends it, waits for an answer as long as a prompt takes exactly when the daemon gates
-- it, and otherwise no longer than an answer takes.
prompts_agree :
    (c : Command) (req : Request)
    → (is_gated c ≡ is_some (gated_action (request c)))
      × (read_timeout req
          ≡ (if is_some (gated_action req) then auth_read_timeout else read_timeout_short))
prompts_agree c req = (expects c, waits req)
