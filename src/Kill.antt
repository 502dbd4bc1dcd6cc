-- ===== src/Kill.antt =====
-- crates/plugkill/src/kill.rs: the kill sequence, as the list of the calls that it makes of the
-- system, in order. Whether a call succeeds, what stands at a path and how a command ends are
-- fields of `World`; a log line is no call.
pub mod Shred
pub mod Sequence
pub mod Overwrites
pub mod Steps
pub mod Melt
pub mod Configured
use plugkill.Prelude.{
  Bool, true, false, List, [], ◌∷◌, ◌++◌, Text, Result, ok, err, ℕ, if◌then◌else◌,
}

pub data Effect : Type 0 where
  ignore_signals sync reboot power_off open_random locate_binary remove_binary : Effect
  create_directory : List Text → Effect
  open_log append_log : Text → Effect
  stat unlink open_file read_dir remove_dir : Text → Effect
  seek fsync : Text → ℕ → Effect
  read_random write : Text → ℕ → ℕ → ℕ → Effect
  spawn finish terminate : List Text → Effect
  swap_off overwrite_device swap_on : Text → Effect
  remove_tree : List Text → Effect

-- What stands at a path. A link has what its target resolves to, which is `missing` where there is
-- none; a directory has its own length
-- and lists what `read_dir` gives.
mutual
  pub data Node : Type 0 where
    missing : Node
    regular : ℕ → Node
    link : Node → Node
    directory : ℕ → Entries → Node

  pub data Entries : Type 0 where
    no_more : Entries
    entry : Text → Node → Entries → Entries
    unreadable : Entries → Entries

-- What `wait_timeout` returns.
pub data Waited : Type 0 where
  exited timed_out failed : Waited

pub record World : Type 0 where
  pub succeeds : Effect → Bool
  pub node : Text → Node
  pub waited : List Text → Waited

-- The calls made, and how they ended.
abbrev pub Action : Type 0
Action = List Effect × Result Unit

abbrev pub done : Action
done = ([], ok tt)

abbrev pub refuse : Text → Action
refuse reason = ([], err reason)

-- `call.map_err(..)?`, and what follows it.
unfoldable pub attempt : World → Effect → Text → Action → Action
attempt world call reason next =
    if world.succeeds call then (call ∷ next.0, next.1) else (call ∷ [], err reason)

-- `first?; next`
unfoldable pub and_then : Action → Action → Action
and_then (calls, err e) next = (calls, err e)
and_then (calls, ok u) next = (calls ++ next.0, next.1)
