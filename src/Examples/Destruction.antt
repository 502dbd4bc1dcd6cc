-- ===== src/Examples/Destruction.antt =====
-- The theorems on the kill sequence, at concrete inputs.
use plugkill.Prelude.{
  ℕ, ◌<◌, ◌≡◌, refl, Bool, true, false, List, [], ◌∷◌, arith, Text, codes, ok, Memᴰ, All, any,
  list_beq, filter, split,
}
use plugkill.Config.{Config, default_config, default_general, default_destruction}
use plugkill.Config.Validate.{validate, clamp}
use plugkill.Paths.{is_absolute, components, has_parent_dir}
use plugkill.Kill.{stat, spawn, reboot, remove_tree, regular, exited, World}
use plugkill.Kill.Shred.{shred_file}
use plugkill.Kill.Sequence.{log_kill_event, melt_self, execute_kill_sequence}
use plugkill.Kill.Overwrites.{removed_after_overwrites, shredding_completes}
use plugkill.Kill.Overwrites.Passes.{bytes_written, has_unlink, is_ok}
use plugkill.Kill.Steps.{dry_run_only_logs}
use plugkill.Kill.Melt.{IsOwnDirectory, melt_spares_others}
use plugkill.Kill.Configured.{valid_configuration_runs_fully}

-- Nothing fails, and every path holds 10000 bytes.
abbrev machine : World
machine = record { succeeds = λ call. true; node = λ path. regular 10000; waited = λ argv. exited }

abbrev key : Text
key = codes "/root/key"

abbrev config_path : Text
config_path = codes "/etc/plugkill/config.toml"

abbrev written : Bool → Config
written dry_run = record default_config {
  general = record default_general { dry_run = dry_run };
  destruction = record default_destruction { files_to_remove = key ∷ [] };
}

key-shredded :
    (is_ok (shred_file machine key (regular 10000) false) ≡ true)
    × (has_unlink (shred_file machine key (regular 10000) false).0 ≡ true)
    × ((k : ℕ)
        → k < 3
        → bytes_written machine k (shred_file machine key (regular 10000) false).0 ≡ 10000)
unfolding is_absolute components has_parent_dir filter split list_beq any
key-shredded = shredding_completes machine key 10000 (λ call. refl) refl refl (λ e. ground arith)

shredding_completes_example :
    (is_ok (shred_file machine key (regular 10000) false) ≡ true)
    × (has_unlink (shred_file machine key (regular 10000) false).0 ≡ true)
    × ((k : ℕ)
        → k < 3
        → bytes_written machine k (shred_file machine key (regular 10000) false).0 ≡ 10000)
unfolding is_absolute components has_parent_dir filter split list_beq any
shredding_completes_example =
    shredding_completes machine key 10000 (λ call. refl) refl refl (λ e. ground arith)

removed_after_overwrites_example :
    bytes_written machine 2 (shred_file machine key (regular 10000) false).0 ≡ 10000
removed_after_overwrites_example =
    removed_after_overwrites machine key 10000 2 (λ e. ground arith) (omega arith) key-shredded.1

dry_run_only_logs_example :
    execute_kill_sequence machine (written true) config_path (codes "usb")
    ≡ (log_kill_event machine (written true).general.log_file (codes "usb"), ok tt)
unfolding default_config
dry_run_only_logs_example = dry_run_only_logs machine (written true) config_path (codes "usb") refl

abbrev config_dir : List Text
config_dir = codes "etc" ∷ codes "plugkill" ∷ []

melted : Memᴰ (remove_tree config_dir) (melt_self machine false config_path)
unfolding melt_self list_beq
melted = Memᴰ.tail (Memᴰ.tail (Memᴰ.head refl))

melt_spares_others_example : IsOwnDirectory config_path config_dir
melt_spares_others_example = melt_spares_others machine false config_path config_dir melted

valid : validate (written false) ≡ ok (clamp (written false))
unfolding validate default_config list_beq
valid = refl

valid_configuration_runs_fully_example :
    All
      (λ path.
        Memᴰ
          (stat path)
          (execute_kill_sequence machine (clamp (written false)) config_path (codes "usb")).0)
      (clamp (written false)).destruction.files_to_remove
    × All
        (λ cmd.
          Memᴰ
            (spawn cmd)
            (execute_kill_sequence machine (clamp (written false)) config_path (codes "usb")).0)
        (clamp (written false)).commands.kill_commands
    × Memᴰ reboot
        (execute_kill_sequence machine (clamp (written false)) config_path (codes "usb")).0
unfolding clamp default_config
valid_configuration_runs_fully_example =
    valid_configuration_runs_fully machine (written false) (clamp (written false)) config_path
      (codes "usb") valid refl
