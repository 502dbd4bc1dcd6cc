-- ===== src/Kill/Shred.antt =====
-- `shred_file` and `shred_directory` of crates/plugkill/src/kill.rs. A failure's reason is the
-- program's own text, less the system's.
use plugkill.Prelude.{
  ℕ, zero, suc, ◌-◌, min, Bool, true, false, not, List, [], ◌++◌, eqb, if◌then◌else◌, Text, codes,
}
use plugkill.Paths.{is_absolute, components, has_parent_dir, join}
use plugkill.Kill.{
  Effect, stat, unlink, open_random, open_file, seek, fsync, read_random, write, read_dir,
  remove_dir, Node, missing, regular, link, directory, Entries, no_more, entry, unreadable, World,
  Action, done, refuse, attempt, and_then,
}

abbrev pub shred_buf_size : ℕ
shred_buf_size = 8192

abbrev pub shred_passes : ℕ
shred_passes = 3

-- The loop over `remaining`, on fuel.
unfoldable pub write_chunks : World → Text → ℕ → ℕ → ℕ → Action
unfolding attempt
write_chunks world path pass zero remaining = done
write_chunks world path pass (suc fuel) remaining =
    let chunk_size = min remaining shred_buf_size in
    let rest = write_chunks world path pass fuel (remaining - chunk_size) in
    if eqb remaining 0
    then done
    else attempt world (read_random path pass remaining chunk_size)
        (codes "error reading /dev/urandom")
        (attempt world (write path pass remaining chunk_size) (codes "error writing to " ++ path)
          rest)

-- One pass: every chunk is of a byte at least, so the size is fuel enough.
unfoldable pub shred_pass : World → Text → ℕ → ℕ → Action
unfolding write_chunks and_then attempt
shred_pass world path file_size pass =
    attempt world (seek path pass) (codes "seek failed for " ++ path) (
      and_then (write_chunks world path pass file_size file_size)
        (attempt world (fsync path pass) (codes "fsync failed for " ++ path) done))

-- The passes from `pass` on, `count` of them.
unfoldable pub run_passes : World → Text → ℕ → ℕ → ℕ → Action
unfolding shred_pass and_then
run_passes world path file_size zero pass = done
run_passes world path file_size (suc count) pass =
    and_then (shred_pass world path file_size pass)
      (run_passes world path file_size count (suc pass))

unfoldable pub remove_file : World → Text → Action
unfolding attempt
remove_file world path = attempt world (unlink path) (codes "cannot remove file " ++ path) done

-- A regular file of `file_size` bytes, and what has no size.
unfoldable pub overwrite : World → Text → ℕ → Action
unfolding run_passes remove_file and_then attempt
overwrite world path file_size =
    if eqb file_size 0
    then remove_file world path
    else attempt world open_random (codes "cannot open /dev/urandom") (
        attempt world (open_file path) (codes "cannot open file for shredding " ++ path)
          (and_then (run_passes world path file_size shred_passes 0) (remove_file world path)))

-- `shred_file` behind `symlink_metadata`, whose failure stands for a missing file. That a
-- directory cannot be opened for writing is the world's.
unfoldable pub shred_node : World → Text → Node → Action
unfolding overwrite remove_file attempt
shred_node world path missing = refuse (codes "cannot stat file " ++ path)
shred_node world path (regular file_size) = overwrite world path file_size
shred_node world path (link target) =
    attempt world (unlink path) (codes "cannot remove symlink " ++ path) done
shred_node world path (directory file_size es) = overwrite world path file_size

unfoldable pub shred_file : World → Text → Node → Bool → Action
unfolding shred_node attempt
shred_file world path node dry_run =
    if not (is_absolute path)
    then refuse (codes "refusing to shred non-absolute path: " ++ path)
    else if has_parent_dir (components path)
    then refuse (codes "refusing to shred path with '..': " ++ path)
    else if dry_run
    then done
    else attempt world (stat path) (codes "cannot stat file " ++ path) (shred_node world path node)

-- `is_dir`, which follows links.
unfoldable pub is_dir : Node → Bool
is_dir missing = false
is_dir (regular n) = false
is_dir (link target) = is_dir target
is_dir (directory file_size es) = true

-- The guard of `shred_directory`, the real run.
unfoldable pub guarded : Text → Action → Action
guarded path action =
    if not (is_absolute path)
    then refuse (codes "refusing to shred non-absolute path: " ++ path)
    else action

-- `shred_directory` behind its guards, and its loop, in which a failure is only logged. What is no
-- directory is left alone.
unfoldable mutual
  unfolding attempt guarded shred_file is_dir

  pub shred_tree : World → Text → Node → Action
  shred_tree world path missing = done
  shred_tree world path (regular file_size) = done
  shred_tree world path (link target) = shred_tree world path target
  shred_tree world path (directory file_size es) =
      let loop = shred_entries world path es in
      let rest = attempt world (remove_dir path) (codes "cannot remove directory " ++ path) done in
      attempt world (read_dir path) (codes "cannot read directory " ++ path)
        (loop ++ rest.0, rest.1)

  pub shred_entries : World → Text → Entries → List Effect
  shred_entries world path no_more = []
  shred_entries world path (unreadable es) = shred_entries world path es
  shred_entries world path (entry name node es) =
      let entry_path = join path name in
      let subdirectory = guarded entry_path (shred_tree world entry_path node) in
      let rest = shred_entries world path es in
      if is_dir node
      then subdirectory.0 ++ rest
      else (shred_file world entry_path node false).0 ++ rest

unfoldable pub shred_directory : World → Text → Node → Bool → Action
unfolding guarded shred_tree
shred_directory world path node dry_run =
    guarded path (if dry_run then done else shred_tree world path node)
