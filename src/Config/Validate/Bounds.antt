-- ===== src/Config/Validate/Bounds.antt =====
-- What a configuration has that `validate` lets through.
use plugkill.Prelude.{
  ℕ, suc, ◌≤◌, ◌≡◌, ◌≢◌, refl, sym, arith, Bool, true, false, Option, none, some, List, [], ◌∷◌,
  All, nat_eq, list_eq, Text, codes, Result, ok, err, ◌>>=◌,
}
use plugkill.Config.{Config, WhitelistEntry}
use plugkill.Paths.{is_absolute, components, has_parent_dir}
use plugkill.Config.Validate.{
  at, Check, validate_path, check_each, check_entry, check_not_empty, check_command, check_swap,
  checks, first_error, clamp_sleep, clamp_grace, clamp, validate,
}

abbrev pub IsSafePath : Text → Type 0
IsSafePath path = (is_absolute path ≡ true) × (has_parent_dir (components path) ≡ false)

abbrev pub IsSafeCommand : List Text → Type 0
IsSafeCommand [] = ⊥
IsSafeCommand (binary ∷ args) = IsSafePath binary

pub record IsValid (config : Config) : Type 0 where
  pub sleep : (50 ≤ config.general.sleep_ms) × (config.general.sleep_ms ≤ 10000)
  pub power : config.power.grace_secs ≤ 300
  pub network : config.network.grace_secs ≤ 300
  pub lid : config.lid.grace_secs ≤ 300
  pub log_file : IsSafePath config.general.log_file
  pub counts : All (λ (e : WhitelistEntry). e.count ≢ 0) config.whitelist.devices
  pub files : All IsSafePath config.destruction.files_to_remove
  pub folders : All IsSafePath config.destruction.folders_to_remove
  pub commands : All IsSafeCommand config.commands.kill_commands
  pub pci_ignore : All (λ (s : Text). s ≢ []) config.pci.ignore
  pub display_ignore : All (λ (s : Text). s ≢ []) config.display.ignore
  pub swap : config.destruction.do_wipe_swap ≡ true → config.destruction.swap_device ≢ none

bind-ok :
    {A : Type 0} (c : Check) (k : Unit → Result A) (v : A)
    → (c >>= k) ≡ ok v
    → (c ≡ ok tt) × (k tt ≡ ok v)
bind-ok (ok u) k v h = (refl, h)
bind-ok (err e) k v h = ground arith

check_each-All :
    {A : Type 0} (P : A → Type 0) (check : ℕ → A → Check)
    → ((i : ℕ) (x : A) → check i x ≡ ok tt → P x)
    → (i : ℕ) (xs : List A) → check_each check i xs ≡ ok tt
    → All P xs
unfolding check_each
check_each-All P check f i [] h = tt
check_each-All P check f i (x ∷ xs) h =
    let (e, r) = bind-ok (check i x) (λ u. check_each check (suc i) xs) tt h in
    (f i x e, check_each-All P check f (suc i) xs r)

first_error-All : (cs : List Check) → first_error cs ≡ ok tt → All (λ c. c ≡ ok tt) cs
unfolding first_error
first_error-All [] h = tt
first_error-All (c ∷ cs) h =
    let (e, r) = bind-ok c (λ u. first_error cs) tt h in (e, first_error-All cs r)

validate_path-IsSafePath :
    (path context : Text) → validate_path path context ≡ ok tt → IsSafePath path
unfolding validate_path
validate_path-IsSafePath path context h = (ground arith, ground arith)

check_not_empty_sound : (value message : Text) → check_not_empty value message ≡ ok tt → value ≢ []
unfolding check_not_empty
check_not_empty_sound [] message h = ground arith
check_not_empty_sound (c ∷ value) message h = λ e. ground arith

check_command-IsSafe : (i : ℕ) (cmd : List Text) → check_command i cmd ≡ ok tt → IsSafeCommand cmd
unfolding check_command
check_command-IsSafe i [] h = ground arith
check_command-IsSafe i (binary ∷ args) h =
    let context = at (codes "commands.kill_commands") i in
    let (e, r) = bind-ok (check_not_empty binary _) (λ u. validate_path binary context) tt h in
    validate_path-IsSafePath binary context r

check_entry-counts : (i : ℕ) (e : WhitelistEntry) → check_entry i e ≡ ok tt → e.count ≢ 0
unfolding check_entry
check_entry-counts i e h = λ z. ground arith

check_swap_sound : (d : Option Text) (b : Bool) → check_swap d b ≡ ok tt → b ≡ true → d ≢ none
unfolding check_swap
check_swap_sound none true h e = ground arith
check_swap_sound none false h e = ground arith
check_swap_sound (some d) b h e = λ n. ground arith

-- What the tests say of the clamped configuration.
checks-IsValid : (c : Config) → All (λ r. r ≡ ok tt) (checks (clamp c)) → IsValid (clamp c)
unfolding checks clamp
checks-IsValid c
      (log, (entries, (files, (folders, (swap, (tb, (sd, (net, (pci, (display, (cmds, u))))))))))) =
    record {
      sleep = unfold clamp_sleep in (ground arith, ground arith);
      power = unfold clamp_grace in ground arith;
      network = unfold clamp_grace in ground arith;
      lid = unfold clamp_grace in ground arith;
      log_file = validate_path-IsSafePath c.general.log_file (codes "general.log_file") log;
      counts = check_each-All _ check_entry check_entry-counts 0 c.whitelist.devices entries;
      files =
          check_each-All IsSafePath _
            (λ i p. validate_path-IsSafePath p (at (codes "destruction.files_to_remove") i)) 0
            c.destruction.files_to_remove files;
      folders =
          check_each-All IsSafePath _
            (λ i p. validate_path-IsSafePath p (at (codes "destruction.folders_to_remove") i)) 0
            c.destruction.folders_to_remove folders;
      commands =
          check_each-All IsSafeCommand check_command check_command-IsSafe 0 c.commands.kill_commands
            cmds;
      pci_ignore = check_each-All _ _ (λ i s. check_not_empty_sound s _) 0 c.pci.ignore pci;
      display_ignore =
          check_each-All _ _ (λ i s. check_not_empty_sound s _) 0 c.display.ignore display;
      swap = check_swap_sound c.destruction.swap_device c.destruction.do_wipe_swap swap;
    }

-- Where `validate` returns a configuration, the poll interval is between 50 and 10000, the graces
-- are at most 300, every path to log to, shred or run is absolute with no "..", no ignore token is
-- empty, no whitelist entry counts none, and swap is wiped only on a device.
pub validate-IsValid : (config config' : Config) → validate config ≡ ok config' → IsValid config'
unfolding validate
validate-IsValid config config' h =
    let (passed, e) =
      bind-ok (first_error (checks (clamp config))) (λ u. ok (clamp config)) config' h in
    let same : clamp config ≡ config' = ground arith in
    rw (sym same) (checks-IsValid config (first_error-All (checks (clamp config)) passed))
