-- ===== src/Kill/Sequence.antt =====
-- `execute_kill_sequence` of crates/plugkill/src/kill.rs, and its steps other than the shredding.
-- A failed step is logged and the next one runs.
use plugkill.Prelude.{
  Bool, not, ◌&&◌, ◌||◌, Option, none, some, List, [], ◌∷◌, ◌++◌, if◌then◌else◌, ◌==◌, nat_eq,
  list_eq, option_eq, option_beq, list_beq, Text, codes, ok,
}
use plugkill.Config.{Config}
use plugkill.Paths.{is_absolute, has_parent_dir, last, parent}
use plugkill.Kill.{
  Effect, ignore_signals, sync, reboot, power_off, locate_binary, remove_binary, create_directory,
  open_log, append_log, spawn, finish, terminate, swap_off, overwrite_device, swap_on, remove_tree,
  exited, timed_out, failed, World, Action, done, refuse, attempt,
}
use plugkill.Kill.Shred.{shred_file, shred_directory}

-- The calls of a step that is the last of its kind.
abbrev pub one : World → Effect → List Effect
one world call = call ∷ []

unfoldable pub append_entry : World → Text → Text → List Effect
append_entry world log_path reason =
    if world.succeeds (open_log log_path)
    then open_log log_path ∷ append_log reason ∷ []
    else open_log log_path ∷ []

unfoldable pub log_kill_event : World → Text → Text → List Effect
unfolding append_entry parent
log_kill_event world log_path reason = elim (parent log_path) [
  | none ↦ append_entry world log_path reason
  | some dir ↦
      create_directory dir
      ∷ (if world.succeeds (create_directory dir) then append_entry world log_path reason else [])
]

-- The wait for a child: only a child that runs out of time is killed.
unfoldable pub wait_for : World → List Text → List Effect
wait_for world argv = elim (world.waited argv) [
  | exited ↦ finish argv ∷ []
  | timed_out ↦ finish argv ∷ terminate argv ∷ []
  | failed ↦ finish argv ∷ []
]

unfoldable pub execute_command : World → List Text → Bool → Action
unfolding wait_for attempt
execute_command world [] dry_run = refuse (codes "empty command array")
execute_command world (binary ∷ args) dry_run =
    if dry_run
    then done
    else attempt world (spawn (binary ∷ args)) (codes "failed to spawn " ++ binary)
        (wait_for world (binary ∷ args), ok tt)

unfoldable pub wipe_swap : World → Text → Bool → Action
unfolding attempt
wipe_swap world device dry_run =
    if dry_run
    then done
    else attempt world (swap_off device) (codes "failed to run swapoff")
        (overwrite_device device ∷ swap_on device ∷ [], ok tt)

-- The directory, as its components.
unfoldable pub config_dir_to_remove : Text → Option (List Text)
unfolding parent is_absolute has_parent_dir last option_beq list_beq
config_dir_to_remove config_path = elim (parent config_path) [
  | none ↦ none
  | some dir ↦
      if not (is_absolute config_path) || has_parent_dir dir
      then none
      else if last dir == some (codes "plugkill")
      then some dir
      else none
]

abbrev pub log_dir : List Text
log_dir = codes "var" ∷ codes "log" ∷ codes "plugkill" ∷ []

unfoldable pub remove_config_dir : Option (List Text) → List Effect
remove_config_dir none = []
remove_config_dir (some dir) = remove_tree dir ∷ []

unfoldable pub melt_self : World → Bool → Text → List Effect
unfolding config_dir_to_remove remove_config_dir
melt_self world dry_run config_path =
    if dry_run
    then []
    else locate_binary
      ∷ ((if world.succeeds locate_binary then remove_binary ∷ [] else [])
          ++ (remove_config_dir (config_dir_to_remove config_path) ++ remove_tree log_dir ∷ []))

-- On Linux. A successful `reboot` does not return.
unfoldable pub shutdown : World → Action
unfolding attempt
shutdown world =
    if world.succeeds reboot
    then (reboot ∷ [], ok tt)
    else (let rest = attempt world power_off (codes "poweroff command failed") done in
        (reboot ∷ rest.0, rest.1))

-- A `for` loop whose body logs its failure.
unfoldable pub each {ℓ} : {A : Type ℓ} → (A → Action) → List A → List Effect
each step [] = []
each step (x ∷ xs) = (step x).0 ++ each step xs

unfoldable pub wipe_configured_swap : World → Bool → Option Text → Bool → List Effect
unfolding wipe_swap
wipe_configured_swap world do_wipe_swap none dry_run = []
wipe_configured_swap world do_wipe_swap (some device) dry_run =
    if do_wipe_swap then (wipe_swap world device dry_run).0 else []

-- What runs before the shutdown, step by step.
unfoldable pub steps : World → Config → Text → Text → List (List Effect)
unfolding log_kill_event each execute_command wipe_configured_swap melt_self shred_file
    shred_directory
steps world config config_path reason =
    let dry_run = config.general.dry_run in
    let d = config.destruction in
    (if dry_run then [] else ignore_signals ∷ [])
    ∷ log_kill_event world config.general.log_file reason
    ∷ each (λ path. shred_file world path (world.node path) dry_run) d.files_to_remove
    ∷ each (λ path. shred_directory world path (world.node path) dry_run) d.folders_to_remove
    ∷ each (λ cmd. execute_command world cmd dry_run) config.commands.kill_commands
    ∷ (if d.do_sync && not dry_run then sync ∷ [] else [])
    ∷ wipe_configured_swap world d.do_wipe_swap d.swap_device dry_run
    ∷ (if d.melt_self then melt_self world dry_run config_path else [])
    ∷ []

abbrev pub concat : List (List Effect) → List Effect
concat [] = []
concat (calls ∷ more) = calls ++ concat more

unfoldable pub execute_kill_sequence : World → Config → Text → Text → Action
unfolding steps shutdown
execute_kill_sequence world config config_path reason =
    let calls = concat (steps world config config_path reason) in
    if config.general.dry_run
    then (calls, ok tt)
    else (let off = shutdown world in (calls ++ off.0, off.1))
