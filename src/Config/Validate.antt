-- ===== src/Config/Validate.antt =====
-- `validate` of crates/plugkill-core/src/config.rs and its helpers. The FreeBSD warnings change
-- nothing; a clamp's warning is a log line. `context` is the field's path in the file.
pub mod Bounds
use plugkill.Prelude.{
  ℕ, zero, suc, ◌+◌, Bool, true, false, not, ◌&&◌, ◌||◌, Option, none, some, List, [], ◌∷◌, ◌++◌,
  ltb, leb, eqb, if◌then◌else◌, ◌==◌, nat_eq, list_eq, list_beq, length, any, every, is_some,
  is_ascii_hexdigit, to_dec, Text, codes, Result, ok, err, ◌>>=◌,
}
use plugkill.Config.{
  Config, GeneralConfig, PowerConfig, NetworkConfig, LidConfig, WhitelistEntry,
  ThunderboltWhitelistEntry, SdCardWhitelistEntry,
}
use plugkill.Paths.{is_absolute, components, has_parent_dir}

abbrev pub Check : Type 0
Check = Result Unit

abbrev pub pass : Check
pass = ok tt

unfoldable pub is_name_char : ℕ → Bool
is_name_char c =
    (leb b'0' c && leb c b'9')
    || (leb b'A' c && leb c b'Z')
    || (leb b'a' c && leb c b'z')
    || eqb c b'.'
    || eqb c b'-'
    || eqb c b'_'

unfoldable pub validate_interface_name : Text → Text → Check
unfolding any every is_name_char
validate_interface_name name context =
    if name == []
    then err (context ++ codes ": interface name must not be empty")
    else if any (λ c. eqb c b'/' || eqb c b'\\' || eqb c 0) name
    then err (
        context
        ++ (codes ": interface name must not contain path separators: '" ++ (name ++ codes "'")))
    else if not (every is_name_char name)
    then err (
        context ++ (codes ": interface name contains invalid characters: '" ++ (name ++ codes "'")))
    else pass

unfoldable pub validate_path : Text → Text → Check
unfolding is_absolute has_parent_dir components
validate_path path context =
    if not (is_absolute path)
    then err (context ++ (codes ": path must be absolute: " ++ path))
    else if has_parent_dir (components path)
    then err (context ++ (codes ": path must not contain '..' segments: " ++ path))
    else pass

unfoldable pub validate_hex_id : Text → Text → Check
unfolding every
validate_hex_id id field =
    if (id == []) || ltb 4 (length id)
    then err (field ++ (codes ": must be 1-4 hex characters, got '" ++ (id ++ codes "'")))
    else if not (every is_ascii_hexdigit id)
    then err (field ++ (codes ": must contain only hex characters, got '" ++ (id ++ codes "'")))
    else pass

-- `{field}[{i}]`
abbrev pub at : Text → ℕ → Text
at field i = field ++ (codes "[" ++ (to_dec i ++ codes "]"))

-- A loop over `enumerate()`, from an index on.
unfoldable pub check_each {ℓ} : {A : Type ℓ} → (ℕ → A → Check) → ℕ → List A → Check
check_each check i [] = pass
check_each check i (x ∷ xs) = check i x >>= λ u. check_each check (suc i) xs

unfoldable pub check_entry : ℕ → WhitelistEntry → Check
unfolding validate_hex_id to_dec
check_entry i e =
    validate_hex_id e.vendor_id (at (codes "whitelist.devices") i ++ codes ".vendor_id")
    >>= (λ u.
        validate_hex_id e.product_id (at (codes "whitelist.devices") i ++ codes ".product_id"))
    >>= (λ u.
        if eqb e.count 0
        then err (at (codes "whitelist.devices") i ++ codes ".count: must be at least 1")
        else pass)

unfoldable pub check_not_empty : Text → Text → Check
unfolding list_beq
check_not_empty value message = if value == [] then err message else pass

unfoldable pub check_command : ℕ → List Text → Check
unfolding validate_path check_not_empty to_dec
check_command i [] =
    err (at (codes "commands.kill_commands") i ++ codes ": command array must not be empty")
check_command i (binary ∷ args) =
    check_not_empty binary
      (at (codes "commands.kill_commands") i ++ codes ": binary name must not be empty")
    >>= λ u. validate_path binary (at (codes "commands.kill_commands") i)

unfoldable pub check_swap : Option Text → Bool → Check
unfolding validate_path
check_swap none true =
    err (codes "destruction.do_wipe_swap is true but destruction.swap_device is not set")
check_swap none false = pass
check_swap (some device) do_wipe_swap = validate_path device (codes "destruction.swap_device")

-- The tests in their order.
unfoldable pub checks : Config → List Check
unfolding check_each check_entry check_command check_swap check_not_empty validate_path
    validate_interface_name
checks config =
    let d = config.destruction in
    validate_path config.general.log_file (codes "general.log_file")
    ∷ check_each check_entry 0 config.whitelist.devices
    ∷ check_each (λ i path. validate_path path (at (codes "destruction.files_to_remove") i)) 0
        d.files_to_remove
    ∷ check_each (λ i path. validate_path path (at (codes "destruction.folders_to_remove") i)) 0
        d.folders_to_remove
    ∷ check_swap d.swap_device d.do_wipe_swap
    ∷ check_each
        (λ i (e : ThunderboltWhitelistEntry).
          check_not_empty e.unique_id
            (at (codes "thunderbolt_whitelist.devices") i ++ codes ".unique_id: must not be empty"))
        0 config.thunderbolt_whitelist.devices
    ∷ check_each
        (λ i (e : SdCardWhitelistEntry).
          check_not_empty e.serial
            (at (codes "sdcard_whitelist.devices") i ++ codes ".serial: must not be empty"))
        0 config.sdcard_whitelist.devices
    ∷ check_each (λ i iface. validate_interface_name iface (at (codes "network.interfaces") i)) 0
        config.network.interfaces
    ∷ check_each
        (λ i s. check_not_empty s (at (codes "pci.ignore") i ++ codes ": must not be empty")) 0
        config.pci.ignore
    ∷ check_each
        (λ i c. check_not_empty c (at (codes "display.ignore") i ++ codes ": must not be empty")) 0
        config.display.ignore
    ∷ check_each check_command 0 config.commands.kill_commands
    ∷ []

unfoldable pub first_error : List Check → Check
first_error [] = pass
first_error (c ∷ cs) = c >>= λ u. first_error cs

unfoldable pub clamp_sleep : ℕ → ℕ
clamp_sleep sleep_ms =
    if ltb sleep_ms 50 then 50 else if ltb 10000 sleep_ms then 10000 else sleep_ms

unfoldable pub clamp_grace : ℕ → ℕ
clamp_grace grace_secs = if ltb 300 grace_secs then 300 else grace_secs

-- The clamps, which the tests do not read: the order between the two does not show.
unfoldable pub clamp : Config → Config
unfolding clamp_sleep clamp_grace
clamp config = record config {
  general = record config.general { sleep_ms = clamp_sleep config.general.sleep_ms };
  power = record config.power { grace_secs = clamp_grace config.power.grace_secs };
  network = record config.network { grace_secs = clamp_grace config.network.grace_secs };
  lid = record config.lid { grace_secs = clamp_grace config.lid.grace_secs };
}

-- The configuration that `validate` leaves, where it returns `Ok`.
unfoldable pub validate : Config → Result Config
unfolding first_error checks clamp
validate config = let config' = clamp config in first_error (checks config') >>= λ u. ok config'
