-- ===== src/Kill/Overwrites/Passes.antt =====
-- What the passes over a file write: each all of its bytes, once it ends well, and no removal.
use plugkill.Prelude.{
  ℕ, zero, suc, ◌+◌, ◌-◌, ◌<◌, ◌≤◌, min, ◌≡◌, ◌≢◌, refl, sym, ◌∙◌, arith, Bool, true, false, ◌||◌,
  ◌&&◌, List, [], ◌∷◌, ◌++◌, eqb, ltb, if◌then◌else◌, Text, ok, err, Bool-cases, inl, inr,
}
use plugkill.Kill.{Effect, unlink, seek, fsync, write, World, Action, done, attempt, and_then}
use plugkill.Kill.Shred.{write_chunks, shred_pass, run_passes}

-- The bytes that the calls write in a pass: a write that fails writes none.
abbrev pub bytes_of : World → ℕ → Effect → ℕ
bytes_of world k (write path pass remaining n) =
    if world.succeeds (write path pass remaining n) && eqb pass k then n else 0
bytes_of world k _ = 0

abbrev pub bytes_written : World → ℕ → List Effect → ℕ
bytes_written world k [] = 0
bytes_written world k (call ∷ calls) = bytes_of world k call + bytes_written world k calls

abbrev pub is_unlink : Effect → Bool
is_unlink (unlink path) = true
is_unlink _ = false

abbrev pub has_unlink : List Effect → Bool
has_unlink [] = false
has_unlink (call ∷ calls) = is_unlink call || has_unlink calls

pub bytes_written-append :
    (world : World) (k : ℕ) (a b : List Effect)
    → bytes_written world k (a ++ b) ≡ bytes_written world k a + bytes_written world k b
bytes_written-append world k [] b = omega arith
bytes_written-append world k (c ∷ a) b = omega (arith, bytes_written-append world k a b)

pub has_unlink-append : (a b : List Effect) → has_unlink (a ++ b) ≡ (has_unlink a || has_unlink b)
has_unlink-append [] b = refl
has_unlink-append (c ∷ a) b = ground (arith, has_unlink-append a b)

abbrev pub is_ok : Action → Bool
is_ok (calls, ok u) = true
is_ok (calls, err e) = false

-- Calls with no removal that write nothing outside the passes `low ≤ k < high`, and `n` bytes in
-- each of those once they end well.
pub record Writes (world : World) (low high n : ℕ) (a : Action) : Type 0 where
  pub keeps : has_unlink a.0 ≡ false
  pub writes : is_ok a ≡ true → (k : ℕ) → low ≤ k → k < high → bytes_written world k a.0 ≡ n
  pub before : (k : ℕ) → k < low → bytes_written world k a.0 ≡ 0
  pub past : (k : ℕ) → high ≤ k → bytes_written world k a.0 ≡ 0

chunks-keep :
    (world : World) (path : Text) (pass fuel remaining : ℕ)
    → has_unlink (write_chunks world path pass fuel remaining).0 ≡ false
unfolding write_chunks attempt
chunks-keep world path pass zero remaining = refl
chunks-keep world path pass (suc fuel) remaining =
    ground (arith, chunks-keep world path pass fuel (remaining - min remaining 8192))

chunks-other :
    (world : World) (path : Text) (pass fuel remaining k : ℕ)
    → pass ≢ k
    → bytes_written world k (write_chunks world path pass fuel remaining).0 ≡ 0
unfolding write_chunks attempt
chunks-other world path pass zero remaining k n = refl
chunks-other world path pass (suc fuel) remaining k n =
    ground (arith, chunks-other world path pass fuel (remaining - min remaining 8192) k n)

-- The loop ends with nothing remaining.
chunks-write :
    (world : World) (path : Text) (pass fuel remaining : ℕ)
    → remaining ≤ fuel
    → is_ok (write_chunks world path pass fuel remaining) ≡ true
    → bytes_written world pass (write_chunks world path pass fuel remaining).0 ≡ remaining
unfolding write_chunks attempt
chunks-write world path pass zero remaining l h = omega arith
chunks-write world path pass (suc fuel) remaining l h = elim (Bool-cases (eqb remaining 0)) [
  | inl e ↦ ground arith
  | inr e ↦
      let later =
        chunks-write world path pass fuel (remaining - min remaining 8192) (ground arith) in
      ground (arith, later)
]

chunks-Writes :
    (world : World) (path : Text) (n pass : ℕ)
    → Writes world pass (suc pass) n (write_chunks world path pass n n)
chunks-Writes world path n pass = record {
  keeps = chunks-keep world path pass n n;
  writes = λ h k a b.
      let same : pass ≡ k = omega arith in
      rw (sym same) (chunks-write world path pass n n (omega arith) h);
  before = λ k a. chunks-other world path pass n n k (λ e. omega arith);
  past = λ k a. chunks-other world path pass n n k (λ e. omega arith);
}

done-Writes : (world : World) (k n : ℕ) → Writes world k k n done
done-Writes world low n = record {
  keeps = refl;
  writes = λ h k a b. omega arith;
  before = λ k a. refl;
  past = λ k a. refl;
}

-- A call that neither writes nor removes.
attempt-Writes :
    (world : World) (call : Effect) (reason : Text) (next : Action) (low high n : ℕ)
    → is_unlink call ≡ false
    → ((k : ℕ) → bytes_of world k call ≡ 0)
    → Writes world low high n next
    → Writes world low high n (attempt world call reason next)
unfolding attempt
attempt-Writes world call reason next low high n u b w = record {
  keeps = let k = w.keeps in ground arith;
  writes = λ h k x y.
      let good : is_ok next ≡ true = ground arith in
      let f = b k in let g = w.writes good k x y in ground arith;
  before = λ k x. let f = b k in let g = w.before k x in ground arith;
  past = λ k x. let f = b k in let g = w.past k x in ground arith;
}

and_then-Writes :
    (world : World) (a b : Action) (low mid high n : ℕ)
    → low ≤ mid
    → mid ≤ high
    → Writes world low mid n a
    → Writes world mid high n b
    → Writes world low high n (and_then a b)
unfolding and_then
and_then-Writes world (calls, err e) b low mid high n l m v w = record {
  keeps = v.keeps;
  writes = λ h k x y. ground arith;
  before = v.before;
  past = λ k x. v.past k (omega arith);
}
and_then-Writes world (calls, ok u) b low mid high n l m v w = record {
  keeps = let p = v.keeps in let q = w.keeps in ground (arith, has_unlink-append calls b.0);
  writes = λ h k x y. bytes_written-append world k calls b.0 ∙ elim (Bool-cases (ltb k mid)) [
    | inl e ↦
        let p = v.writes refl k x (ground arith) in let q = w.before k (ground arith) in omega arith
    | inr e ↦
        let p = v.past k (ground arith) in let q = w.writes h k (ground arith) y in omega arith
  ];
  before = λ k x.
      let p = v.before k x in
      let q = w.before k (omega arith) in omega (arith, bytes_written-append world k calls b.0);
  past = λ k x.
      let p = v.past k (omega arith) in
      let q = w.past k x in omega (arith, bytes_written-append world k calls b.0);
}

pass-Writes :
    (world : World) (path : Text) (n pass : ℕ)
    → Writes world pass (suc pass) n (shred_pass world path n pass)
unfolding shred_pass
pass-Writes world path n pass =
    attempt-Writes world (seek path pass) _ _ pass (suc pass) n refl (λ k. refl)
      (and_then-Writes world (write_chunks world path pass n n) _ pass (suc pass) (suc pass) n
        (omega arith) (omega arith) (chunks-Writes world path n pass)
        (attempt-Writes world (fsync path pass) _ done (suc pass) (suc pass) n refl (λ k. refl)
          (done-Writes world (suc pass) n)))

pub passes-Writes :
    (world : World) (path : Text) (n count pass : ℕ)
    → Writes world pass (pass + count) n (run_passes world path n count pass)
unfolding run_passes
passes-Writes world path n zero pass =
    let same : pass + 0 ≡ pass = omega arith in rw same (done-Writes world pass n)
passes-Writes world path n (suc count) pass =
    let same : pass + suc count ≡ suc pass + count = omega arith in
    rw same (
      and_then-Writes world (shred_pass world path n pass)
        (run_passes world path n count (suc pass)) pass (suc pass) (suc pass + count) n
        (omega arith) (omega arith) (pass-Writes world path n pass)
        (passes-Writes world path n count (suc pass)))
