-- ===== src/Kill/Overwrites.antt =====
-- A file is removed only after every pass has written all of it.
pub mod Passes
use plugkill.Prelude.{
  ℕ, zero, suc, ◌+◌, ◌-◌, ◌<◌, ◌≤◌, min, ◌≡◌, ◌≢◌, ◌⊎◌, refl, sym, ap, ◌∙◌, arith, Bool, true,
  false, not, ◌||◌, List, [], ◌∷◌, ◌++◌, eqb, ltb, if◌then◌else◌, Text, codes, Result, ok, err,
  Bool-cases, inl, inr, Result-cases,
}
use plugkill.Paths.{is_absolute, components, has_parent_dir}
use plugkill.Kill.{
  Effect, unlink, stat, open_random, open_file, seek, fsync, read_random, write, Node, regular,
  World, Action, done, attempt, and_then,
}
use plugkill.Kill.Shred.{
  write_chunks, shred_pass, run_passes, remove_file, overwrite, shred_node, shred_file,
}
use plugkill.Kill.Overwrites.Passes.{
  bytes_of, bytes_written, is_unlink, has_unlink, is_ok, bytes_written-append, has_unlink-append,
  Writes, passes-Writes,
}

-- Where nothing fails, the shredding ends well.
module _ (world : World) (all : (call : Effect) → world.succeeds call ≡ true) where
  attempt-ok :
      (call : Effect) (reason : Text) (next : Action)
      → attempt world call reason next ≡ (call ∷ next.0, next.1)
  unfolding attempt
  attempt-ok call reason next = rw (all call) refl

  and_then-ok : (a b : Action) → is_ok a ≡ true → is_ok (and_then a b) ≡ is_ok b
  unfolding and_then
  and_then-ok (calls, err e) b h = ground arith
  and_then-ok (calls, ok u) b h = ground arith

  chunks-ok :
      (path : Text) (pass fuel remaining : ℕ)
      → is_ok (write_chunks world path pass fuel remaining) ≡ true
  unfolding write_chunks
  chunks-ok path pass zero remaining = refl
  chunks-ok path pass (suc fuel) remaining =
      let r = all (read_random path pass remaining (min remaining 8192)) in
      let w = all (write path pass remaining (min remaining 8192)) in
      unfold attempt in ground (arith, chunks-ok path pass fuel (remaining - min remaining 8192))

  pass-ok : (path : Text) (n pass : ℕ) → is_ok (shred_pass world path n pass) ≡ true
  unfolding shred_pass
  pass-ok path n pass =
      rw (attempt-ok (seek path pass), attempt-ok (fsync path pass))
        (and_then-ok (write_chunks world path pass n n) _ (chunks-ok path pass n n))

  passes-ok : (path : Text) (n count pass : ℕ) → is_ok (run_passes world path n count pass) ≡ true
  unfolding run_passes
  passes-ok path n zero pass = refl
  passes-ok path n (suc count) pass =
      and_then-ok (shred_pass world path n pass) _ (pass-ok path n pass)
      ∙ passes-ok path n count (suc pass)

-- What a removal behind a call that neither writes nor removes says.
attempt-unlink :
    (world : World) (call : Effect) (reason : Text) (next : Action)
    → is_unlink call ≡ false
    → ((k : ℕ) → bytes_of world k call ≡ 0)
    → has_unlink (attempt world call reason next).0 ≡ true
    → (has_unlink next.0 ≡ true)
      × ((k : ℕ)
          → bytes_written world k (attempt world call reason next).0 ≡ bytes_written world k next.0)
unfolding attempt
attempt-unlink world call reason next u b h =
    let removes : has_unlink next.0 ≡ true = ground arith in
    (removes, λ k. let f = b k in ground arith)

-- Every pass has ended well where the removal behind them is there.
and_then-unlink :
    (world : World) (a b : Action) (k : ℕ)
    → has_unlink (and_then a b).0 ≡ true
    → has_unlink a.0 ≡ false
    → (is_ok a ≡ true)
      × (bytes_written world k (and_then a b).0
          ≡ bytes_written world k a.0 + bytes_written world k b.0)
unfolding and_then
and_then-unlink world (calls, err e) b k h r = ground arith
and_then-unlink world (calls, ok u) b k h r = (refl, bytes_written-append world k calls b.0)

bytes_written-remove :
    (world : World) (path : Text) (k : ℕ) → bytes_written world k (remove_file world path).0 ≡ 0
unfolding remove_file attempt
bytes_written-remove world path k = ground arith

overwrite_removes :
    (world : World) (path : Text) (n k : ℕ)
    → n ≢ 0
    → k < 3
    → has_unlink (overwrite world path n).0 ≡ true
    → bytes_written world k (overwrite world path n).0 ≡ n
unfolding overwrite
overwrite_removes world path n k z l =
    let sized : eqb n 0 ≡ false = ground arith in
    let passes = run_passes world path n 3 0 in
    let shown = passes-Writes world path n 3 0 in
    let last = and_then passes (remove_file world path) in
    let opened =
      attempt world (open_file path) (codes "cannot open file for shredding " ++ path) last in
    rw sized (λ h.
      let (h1, w1) = attempt-unlink world open_random _ opened refl (λ i. refl) h in
      let (h2, w2) = attempt-unlink world (open_file path) _ last refl (λ i. refl) h1 in
      let (good, w3) = and_then-unlink world passes (remove_file world path) k h2 shown.keeps in
      w1 k
      ∙ w2 k
      ∙ w3
      ∙ rw (shown.writes good k (omega arith) l, bytes_written-remove world path k) (omega arith))

and_then-removes :
    (a b : Action) → is_ok a ≡ true → has_unlink b.0 ≡ true → has_unlink (and_then a b).0 ≡ true
unfolding and_then
and_then-removes (calls, err e) b h r = ground arith
and_then-removes (calls, ok u) b h r = has_unlink-append calls b.0 ∙ ground arith

remove_file-ok :
    (world : World) (path : Text)
    → world.succeeds (unlink path) ≡ true
    → (has_unlink (remove_file world path).0 ≡ true) × (is_ok (remove_file world path) ≡ true)
unfolding remove_file attempt
remove_file-ok world path h = rw h (refl, refl)

overwrite-ok :
    (world : World) (path : Text) (n : ℕ)
    → ((call : Effect) → world.succeeds call ≡ true)
    → (has_unlink (overwrite world path n).0 ≡ true) × (is_ok (overwrite world path n) ≡ true)
unfolding overwrite
overwrite-ok world path n all = elim (Bool-cases (eqb n 0)) [
  | inl e ↦ rw e (remove_file-ok world path (all (unlink path)))
  | inr e ↦
      let (removes, well) = remove_file-ok world path (all (unlink path)) in
      let good = passes-ok world all path n 3 0 in
      rw (e, attempt-ok world all open_random, attempt-ok world all (open_file path))
        (
          and_then-removes (run_passes world path n 3 0) (remove_file world path) good removes,
          and_then-ok world all (run_passes world path n 3 0) (remove_file world path) good ∙ well,
        )
]

-- A removal comes from behind the guards and the first look at the file.
behind_guards :
    (world : World) (path : Text) (node : Node)
    → has_unlink (shred_file world path node false).0 ≡ true
    → ((k : ℕ)
        → bytes_written world k (shred_file world path node false).0
          ≡ bytes_written world k (shred_node world path node).0)
      × (has_unlink (shred_node world path node).0 ≡ true)
unfolding shred_file
behind_guards world path node h = elim (Bool-cases (is_absolute path)) [
  | inr e ↦ ground arith
  | inl e ↦ elim (Bool-cases (has_parent_dir (components path))) [
    | inl f ↦ ground arith
    | inr f ↦
        let next =
          attempt world (stat path) (codes "cannot stat file " ++ path)
            (shred_node world path node) in
        let whole : shred_file world path node false ≡ next = rw (e, f) refl in
        let there : has_unlink next.0 ≡ true =
          ap (λ (a : Action). has_unlink a.0) (sym whole) ∙ h in
        let (r, w) =
          attempt-unlink world (stat path) _ (shred_node world path node) refl (λ k. refl) there in
        (λ k. ap (λ (a : Action). bytes_written world k a.0) whole ∙ w k, r)
  ]
]

guards_pass :
    (world : World) (path : Text) (node : Node)
    → ((call : Effect) → world.succeeds call ≡ true)
    → is_absolute path ≡ true
    → has_parent_dir (components path) ≡ false
    → shred_file world path node false
      ≡ (stat path ∷ (shred_node world path node).0, (shred_node world path node).1)
unfolding shred_file
guards_pass world path node all a p = rw (a, p, attempt-ok world all (stat path)) refl

-- Whatever calls fail: shredding a regular file of `n` bytes, `n` not zero, removes it only where
-- the writes of each of the three passes that have succeeded amount to `n` bytes.
pub removed_after_overwrites :
    (world : World) (path : Text) (n k : ℕ)
    → n ≢ 0
    → k < 3
    → has_unlink (shred_file world path (regular n) false).0 ≡ true
    → bytes_written world k (shred_file world path (regular n) false).0 ≡ n
unfolding shred_node
removed_after_overwrites world path n k z l h =
    let (e, r) = behind_guards world path (regular n) h in
    e k ∙ overwrite_removes world path n k z l r

-- Where no call fails, the path is absolute and has no "..": shredding a regular file of `n` bytes,
-- `n` not zero, ends well and removes it, and the writes of each of the three passes that have
-- succeeded amount to `n` bytes, with the chunks' fuel.
pub shredding_completes :
    (world : World) (path : Text) (n : ℕ)
    → ((call : Effect) → world.succeeds call ≡ true)
    → is_absolute path ≡ true
    → has_parent_dir (components path) ≡ false
    → n ≢ 0
    → (is_ok (shred_file world path (regular n) false) ≡ true)
      × (has_unlink (shred_file world path (regular n) false).0 ≡ true)
      × ((k : ℕ) → k < 3 → bytes_written world k (shred_file world path (regular n) false).0 ≡ n)
unfolding shred_node
shredding_completes world path n all a p z =
    let (removes, well) : (has_unlink (shred_file world path (regular n) false).0 ≡ true)
        × (is_ok (shred_file world path (regular n) false) ≡ true) =
      rw (guards_pass world path (regular n) all a p) (overwrite-ok world path n all) in
    (well, removes, λ k l. removed_after_overwrites world path n k z l removes)
