-- ===== src/Kill/Melt.antt =====
-- Which directories `melt_self` may remove whole.
use plugkill.Prelude.{
  Bool, true, false, ◌≡◌, ◌⊎◌, arith, Option, none, some, List, [], ◌∷◌, Memᴰ, Text, codes, ◌==◌,
  Bool-cases, Option-cases, inl, inr, if◌then◌else◌, list_eq, nat_eq, option_eq,
}
use mathlib.Core.List.Memᴰ.{append_cases}
use plugkill.Paths.{is_absolute, has_parent_dir, last, parent}
use plugkill.Kill.{remove_tree, remove_binary, locate_binary, World}
use plugkill.Kill.Sequence.{config_dir_to_remove, remove_config_dir, log_dir, melt_self}

-- The log directory, or the directory that holds the configuration and is named plugkill.
abbrev pub IsOwnDirectory : Text → List Text → Type 0
IsOwnDirectory config_path dir =
    (dir ≡ log_dir)
    ⊎ ((parent config_path ≡ some dir)
        × (is_absolute config_path ≡ true)
        × (has_parent_dir dir ≡ false)
        × ((last dir == some (codes "plugkill")) ≡ true))

config_dir_safe :
    (config_path : Text) (dir : List Text)
    → config_dir_to_remove config_path ≡ some dir
    → (parent config_path ≡ some dir)
      × (is_absolute config_path ≡ true)
      × (has_parent_dir dir ≡ false)
      × ((last dir == some (codes "plugkill")) ≡ true)
unfolding config_dir_to_remove
config_dir_safe config_path dir h = elim (Option-cases (parent config_path)) [
  | inl e ↦ ground arith
  | inr (p, e) ↦
      let same : p ≡ dir = ground arith in (ground arith, ground arith, ground arith, ground arith)
]

removed_config_dir :
    (o : Option (List Text)) (dir : List Text)
    → Memᴰ (remove_tree dir) (remove_config_dir o)
    → o ≡ some dir
unfolding remove_config_dir
removed_config_dir none dir m = elim m [ ]
removed_config_dir (some d) dir (Memᴰ.head e) = ground arith
removed_config_dir (some d) dir (Memᴰ.tail m) = elim m [ ]

-- `melt_self` removes no directory but the log directory and, where its path is absolute, has no
-- ".." and ends in plugkill, the one that holds the loaded configuration.
pub melt_spares_others :
    (world : World) (dry_run : Bool) (config_path : Text) (dir : List Text)
    → Memᴰ (remove_tree dir) (melt_self world dry_run config_path)
    → IsOwnDirectory config_path dir
unfolding melt_self
melt_spares_others world true config_path dir m = elim m [ ]
melt_spares_others world false config_path dir (Memᴰ.head e) = ground arith
melt_spares_others world false config_path dir (Memᴰ.tail m) =
    elim (append_cases (if world.succeeds locate_binary then remove_binary ∷ [] else []) m) [
      | inl b ↦ absurd (binary_is_no_tree world dir b)
      | inr r ↦ elim (append_cases (remove_config_dir (config_dir_to_remove config_path)) r) [
        | inl c ↦ inr (
            config_dir_safe config_path dir
              (removed_config_dir (config_dir_to_remove config_path) dir c))
        | inr l ↦ inl (last_removed dir l)
      ]
    ]
  where
    binary_is_no_tree :
        (w : World) (d : List Text)
        → Memᴰ (remove_tree d) (if w.succeeds locate_binary then remove_binary ∷ [] else [])
        → ⊥
    binary_is_no_tree w d = elim (Bool-cases (w.succeeds locate_binary)) [
      | inl e ↦ rw e (λ b. elim b [ Memᴰ.head f ↦ ground arith | Memᴰ.tail b' ↦ elim b' [ ] ])
      | inr e ↦ rw e (λ b. elim b [ ])
    ]

    last_removed : (d : List Text) → Memᴰ (remove_tree d) (remove_tree log_dir ∷ []) → d ≡ log_dir
    last_removed d (Memᴰ.head e) = ground arith
    last_removed d (Memᴰ.tail b) = elim b [ ]
