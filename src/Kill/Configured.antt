-- ===== src/Kill/Configured.antt =====
-- What the checks of the configuration give the kill sequence.
use plugkill.Prelude.{◌≡◌, false, List, [], ◌∷◌, Memᴰ, All, All-mem, All-of_mem, Text, ok}
use plugkill.Config.{Config}
use plugkill.Config.Validate.{validate}
use plugkill.Config.Validate.Bounds.{IsSafePath, IsSafeCommand, validate-IsValid}
use plugkill.Kill.{stat, spawn, reboot, World}
use plugkill.Kill.Sequence.{execute_kill_sequence}
use plugkill.Kill.Steps.{every_step_runs}

-- With a configuration that `validate` returned, whatever calls fail: outside a dry run the sequence
-- looks at every configured file, spawns every configured command and calls `reboot`.
pub valid_configuration_runs_fully :
    (world : World) (written config : Config) (config_path reason : Text)
    → validate written ≡ ok config
    → config.general.dry_run ≡ false
    → All
        (λ path. Memᴰ (stat path) (execute_kill_sequence world config config_path reason).0)
        config.destruction.files_to_remove
      × All
          (λ cmd. Memᴰ (spawn cmd) (execute_kill_sequence world config config_path reason).0)
          config.commands.kill_commands
      × Memᴰ reboot (execute_kill_sequence world config config_path reason).0
valid_configuration_runs_fully world written config config_path reason v h =
    let valid = validate-IsValid written config v in
    let (files, commands, off) = every_step_runs world config config_path reason h in
    (
      All-of_mem _ config.destruction.files_to_remove (λ path m.
          let (a, p) = All-mem IsSafePath config.destruction.files_to_remove valid.files m in
          files path m a p),
      All-of_mem _ config.commands.kill_commands (λ cmd m.
          spawns cmd m (All-mem IsSafeCommand config.commands.kill_commands valid.commands m)
            commands),
      off,
    )
  where
    spawns :
        (cmd : List Text)
        → Memᴰ cmd config.commands.kill_commands
        → IsSafeCommand cmd
        → ((binary : Text) (args : List Text)
            → Memᴰ (binary ∷ args) config.commands.kill_commands
            → Memᴰ
                (spawn (binary ∷ args))
                (execute_kill_sequence world config config_path reason).0)
        → Memᴰ (spawn cmd) (execute_kill_sequence world config config_path reason).0
    spawns [] m s f = absurd s
    spawns (binary ∷ args) m s f = f binary args m
