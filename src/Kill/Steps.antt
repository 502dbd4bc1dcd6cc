-- ===== src/Kill/Steps.antt =====
-- What the whole kill sequence does: in a dry run nothing but the log, otherwise every step whatever
-- fails, and which directories it may remove.
use plugkill.Prelude.{
  Bool, true, false, not, ◌&&◌, ◌≡◌, refl, ap, sym, ◌∙◌, arith, Option, none, some, List, [], ◌∷◌,
  ◌++◌, Memᴰ, Text, ok, Bool-cases, inl, inr, if◌then◌else◌,
}
use mathlib.Core.List.{append-nil}
use mathlib.Core.List.Memᴰ.{append_left, append_right}
use plugkill.Config.{Config}
use plugkill.Paths.{is_absolute, components, has_parent_dir}
use plugkill.Kill.{Effect, stat, sync, spawn, reboot, World, Action, attempt}
use plugkill.Kill.Shred.{shred_file, shred_directory}
use plugkill.Kill.Sequence.{
  log_kill_event, execute_command, wipe_configured_swap, melt_self, shutdown, each, steps, concat,
  execute_kill_sequence,
}

each-none :
    {A : Type 0} (step : A → Action) (xs : List A) → ((x : A) → (step x).0 ≡ []) → each step xs ≡ []
unfolding each
each-none step [] h = refl
each-none step (x ∷ xs) h = rw (h x) (each-none step xs h)

shred_file-dry :
    (world : World) (path : Text) → (shred_file world path (world.node path) true).0 ≡ []
unfolding shred_file
shred_file-dry world path = ground arith

shred_directory-dry :
    (world : World) (path : Text) → (shred_directory world path (world.node path) true).0 ≡ []
unfolding shred_directory
shred_directory-dry world path = ground arith

execute_command-dry : (world : World) (cmd : List Text) → (execute_command world cmd true).0 ≡ []
unfolding execute_command
execute_command-dry world [] = refl
execute_command-dry world (b ∷ args) = refl

wipe-dry :
    (world : World) (wipe : Bool) (device : Option Text)
    → wipe_configured_swap world wipe device true ≡ []
unfolding wipe_configured_swap
wipe-dry world wipe none = refl
wipe-dry world true (some d) = refl
wipe-dry world false (some d) = refl

no_sync : (b : Bool) (calls : List Effect) → (if b && not true then calls else []) ≡ []
no_sync true calls = refl
no_sync false calls = refl

melt-dry :
    (world : World) (b : Bool) (path : Text) → (if b then melt_self world true path else []) ≡ []
unfolding melt_self
melt-dry world true path = refl
melt-dry world false path = refl

steps-dry :
    (world : World) (config : Config) (config_path reason : Text)
    → config.general.dry_run ≡ true
    → concat (steps world config config_path reason)
      ≡ log_kill_event world config.general.log_file reason
unfolding steps
steps-dry world config config_path reason h =
    let d = config.destruction in
    rw
      (
        h,
        each-none (λ path. shred_file world path (world.node path) true) d.files_to_remove
            (shred_file-dry world),
        each-none (λ path. shred_directory world path (world.node path) true) d.folders_to_remove
            (shred_directory-dry world),
        each-none (λ cmd. execute_command world cmd true) config.commands.kill_commands
            (execute_command-dry world),
        no_sync d.do_sync (sync ∷ []),
        wipe-dry world d.do_wipe_swap d.swap_device,
        melt-dry world d.melt_self config_path,
      )
      (append-nil (log_kill_event world config.general.log_file reason))

-- A dry run makes no call but those that write the log entry, and returns.
pub dry_run_only_logs :
    (world : World) (config : Config) (config_path reason : Text)
    → config.general.dry_run ≡ true
    → execute_kill_sequence world config config_path reason
      ≡ (log_kill_event world config.general.log_file reason, ok tt)
unfolding execute_kill_sequence
dry_run_only_logs world config config_path reason h =
    let returns : execute_kill_sequence world config config_path reason
        ≡ (concat (steps world config config_path reason), ok tt) =
      rw h refl in
    returns
    ∙ ap (λ (calls : List Effect). (calls, ok tt)) (steps-dry world config config_path reason h)

-- A step of the loop is reached whatever the steps before it return.
each-mem :
    {A : Type 0} (step : A → Action) (xs : List A) (x : A) (call : Effect)
    → Memᴰ x xs
    → Memᴰ call (step x).0
    → Memᴰ call (each step xs)
unfolding each
each-mem step [] x call m c = elim m [ ]
each-mem step (y ∷ xs) x call (Memᴰ.head e) c = append_left (each step xs) (rw (sym e) c)
each-mem step (y ∷ xs) x call (Memᴰ.tail m) c =
    append_right (step y).0 (each-mem step xs x call m c)

concat-mem :
    (parts : List (List Effect)) (calls : List Effect) (call : Effect)
    → Memᴰ calls parts
    → Memᴰ call calls
    → Memᴰ call (concat parts)
concat-mem [] calls call m c = elim m [ ]
concat-mem (x ∷ parts) calls call (Memᴰ.head e) c = append_left (concat parts) (rw (sym e) c)
concat-mem (x ∷ parts) calls call (Memᴰ.tail m) c = append_right x (concat-mem parts calls call m c)

spawn-mem :
    (world : World) (binary : Text) (args : List Text) (dry_run : Bool)
    → dry_run ≡ false
    → Memᴰ (spawn (binary ∷ args)) (execute_command world (binary ∷ args) dry_run).0
unfolding execute_command attempt
spawn-mem world binary args dry_run h = elim (Bool-cases (world.succeeds (spawn (binary ∷ args)))) [
  | inl e ↦ rw (h, e) (Memᴰ.head refl)
  | inr e ↦ rw (h, e) (Memᴰ.head refl)
]

stat-mem :
    (world : World) (path : Text) (dry_run : Bool)
    → dry_run ≡ false
    → is_absolute path ≡ true
    → has_parent_dir (components path) ≡ false
    → Memᴰ (stat path) (shred_file world path (world.node path) dry_run).0
unfolding shred_file attempt
stat-mem world path dry_run h a p = elim (Bool-cases (world.succeeds (stat path))) [
  | inl e ↦ rw (h, a, p, e) (Memᴰ.head refl)
  | inr e ↦ rw (h, a, p, e) (Memᴰ.head refl)
]

reboot-mem : (world : World) → Memᴰ reboot (shutdown world).0
unfolding shutdown
reboot-mem world = elim (Bool-cases (world.succeeds reboot)) [
  | inl e ↦ rw e (Memᴰ.head refl)
  | inr e ↦ rw e (Memᴰ.head refl)
]

sequence-calls :
    (world : World) (config : Config) (config_path reason : Text)
    → config.general.dry_run ≡ false
    → (execute_kill_sequence world config config_path reason).0
      ≡ concat (steps world config config_path reason) ++ (shutdown world).0
unfolding execute_kill_sequence
sequence-calls world config config_path reason h = rw h refl

-- The steps that shred the files and run the commands are among the steps.
steps-mem :
    (world : World) (config : Config) (config_path reason : Text)
    → Memᴰ
        (each
          (λ path. shred_file world path (world.node path) config.general.dry_run)
          config.destruction.files_to_remove)
        (steps world config config_path reason)
      × Memᴰ
          (each
            (λ cmd. execute_command world cmd config.general.dry_run)
            config.commands.kill_commands)
          (steps world config config_path reason)
unfolding steps
steps-mem world config config_path reason = (
  Memᴰ.tail (Memᴰ.tail (Memᴰ.head refl)),
  Memᴰ.tail (Memᴰ.tail (Memᴰ.tail (Memᴰ.tail (Memᴰ.head refl)))),
)

-- Whatever calls fail: outside a dry run, the sequence looks at every configured file whose path is
-- absolute and has no "..", spawns every configured command that is not empty, and calls `reboot`.
pub every_step_runs :
    (world : World) (config : Config) (config_path reason : Text)
    → config.general.dry_run ≡ false
    → ((path : Text)
        → Memᴰ path config.destruction.files_to_remove
        → is_absolute path ≡ true
        → has_parent_dir (components path) ≡ false
        → Memᴰ (stat path) (execute_kill_sequence world config config_path reason).0)
      × ((binary : Text) (args : List Text)
          → Memᴰ (binary ∷ args) config.commands.kill_commands
          → Memᴰ (spawn (binary ∷ args)) (execute_kill_sequence world config config_path reason).0)
      × Memᴰ reboot (execute_kill_sequence world config config_path reason).0
every_step_runs world config config_path reason h =
    let dry_run = config.general.dry_run in
    let (shreds, runs) = steps-mem world config config_path reason in
    let all = steps world config config_path reason in
    rw (sequence-calls world config config_path reason h) (
      λ path m a p. append_left (shutdown world).0 (
          concat-mem all _ (stat path) shreds (
            each-mem (λ f. shred_file world f (world.node f) dry_run)
              config.destruction.files_to_remove path (stat path) m
              (stat-mem world path dry_run h a p))),
      λ binary args m. append_left (shutdown world).0 (
          concat-mem all _ (spawn (binary ∷ args)) runs (
            each-mem (λ c. execute_command world c dry_run) config.commands.kill_commands
              (binary ∷ args) (spawn (binary ∷ args)) m (spawn-mem world binary args dry_run h))),
      append_right (concat all) (reboot-mem world),
    )
