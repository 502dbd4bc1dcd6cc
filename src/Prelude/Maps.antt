-- ===== src/Prelude/Maps.antt =====
-- `HashSet<T>` and `HashMap<K, V>` as lists in the order that an iteration visits them. The
-- order is arbitrary; the map keeps one entry for each key.
use Prim.Native.Nat.{ℕ, ◌+◌, ◌%◌, ◌^◌}
use mathlib.Core.Path.{◌≡◌, refl, ap}
use mathlib.Core.Logic.{◌↔◌, inl, inr}
use mathlib.Core.Bool.{◌&&◌, Bool, true, false, ◌||◌}
use mathlib.Core.Option.{Option, none, some}
use mathlib.Core.List.{List, [], ◌∷◌, ◌++◌, Memᴰ}
use native.Mathlib.Omega.{arith}
use plugkill.Prelude.Tests.{if◌then◌else◌, Bool-cases}
use plugkill.Prelude.Lists.{
  filter, All, All-mem, All-of_mem, find_map, find_map-none, find_map-some,
}
use plugkill.Prelude.Equality.{Eq, ◌==◌, ==_congr, ==_congr_right}

module _ {ℓ} {A : Type ℓ} ⦃e : Eq A⦄ where
  -- `set.contains(a)`
  unfoldable pub contains : List A → A → Bool
  contains [] a = false
  contains (x ∷ xs) a = x == a || contains xs a

  pub contains_congr : (xs : List A) (a b : A) → (a == b) ≡ true → contains xs a ≡ contains xs b
  unfolding contains
  contains_congr [] a b h = refl
  contains_congr (x ∷ xs) a b h = ground (arith, ==_congr_right a b x h, contains_congr xs a b h)

  pub contains-mem : (xs : List A) {a : A} → Memᴰ a xs → contains xs a ≡ true
  unfolding contains
  contains-mem [] m = elim m [ ]
  contains-mem (x ∷ xs) {a} (Memᴰ.head p) = rw p (ground (arith, e.eq_refl x))
  contains-mem (x ∷ xs) {a} (Memᴰ.tail m) = ground (arith, contains-mem xs m)

  pub mem-contains :
      (xs : List A) (a : A) → contains xs a ≡ true → (x : A) × Memᴰ x xs × ((x == a) ≡ true)
  unfolding contains
  mem-contains [] a h = ground arith
  mem-contains (x ∷ xs) a h = elim (Bool-cases (x == a)) [
    | inl p ↦ (x, Memᴰ.head refl, p)
    | inr p ↦ let (y, m, q) = mem-contains xs a (ground arith) in (y, Memᴰ.tail m, q)
  ]

  -- A filter that treats equal values alike keeps what it accepts.
  pub contains-filter :
      (p : A → Bool) (xs : List A) (a : A)
      → ((b : A) → (b == a) ≡ true → p b ≡ p a)
      → contains (filter p xs) a ≡ (contains xs a && p a)
  unfolding contains filter
  contains-filter p [] a h = refl
  contains-filter p (x ∷ xs) a h = elim (Bool-cases (x == a)) [
    | inl e ↦ ground (arith, h x e, contains-filter p xs a h)
    | inr e ↦ ground (arith, contains-filter p xs a h)
  ]

  pub contains-append :
      (xs ys : List A) (a : A) → contains (xs ++ ys) a ≡ (contains xs a || contains ys a)
  unfolding contains
  contains-append [] ys a = refl
  contains-append (x ∷ xs) ys a = ground (arith, contains-append xs ys a)

module _ {ℓ κ} {K : Type ℓ} {V : Type κ} ⦃e : Eq K⦄ where
  unfoldable pub get : K → List (K × V) → Option V
  get k [] = none
  get k ((j, v) ∷ m) = if j == k then some v else get k m

  -- The invariant of a `HashMap`.
  abbrev pub UniqueKeys : List (K × V) → Type κ
  UniqueKeys [] = Unit
  UniqueKeys ((k, v) ∷ m) = (get k m ≡ none) × UniqueKeys m

  pub get_congr : (j k : K) (m : List (K × V)) → (j == k) ≡ true → get j m ≡ get k m
  unfolding get
  get_congr j k [] h = refl
  get_congr j k ((i, v) ∷ m) h = ground (arith, ==_congr_right j k i h, get_congr j k m h)

  pub get-mem : (m : List (K × V)) {k : K} {v : V} → UniqueKeys m → Memᴰ (k, v) m → get k m ≡ some v
  unfolding get
  get-mem [] u h = elim h [ ]
  get-mem ((j, w) ∷ m) {k} {v} u (Memᴰ.head p) =
      ground (arith, ap (λ (t : K × V). t.0) p, ap (λ (t : K × V). t.1) p, e.eq_refl j)
  get-mem ((j, w) ∷ m) {k} {v} u (Memᴰ.tail h) = ground (arith, get-mem m u.1 h, get_congr j k m)

  pub mem-get :
      (k : K) (m : List (K × V)) {v : V}
      → get k m ≡ some v
      → (j : K) × Memᴰ (j, v) m × ((j == k) ≡ true)
  unfolding get
  mem-get k [] h = ground arith
  mem-get k ((j, w) ∷ m) {v} h = elim (Bool-cases (j == k)) [
    | inl p ↦ (j, Memᴰ.head (ground arith), p)
    | inr p ↦ let (i, n, q) = mem-get k m {v = v} (ground arith) in (i, Memᴰ.tail n, q)
  ]

module _ {ℓ} {K : Type ℓ} ⦃e : Eq K⦄ where
  -- `map.get(k).copied().unwrap_or(0)`
  unfoldable pub count : List (K × ℕ) → K → ℕ
  count m k = elim (get k m) [ none ↦ 0 | some n ↦ n ]

  -- `*map.entry(k).or_insert(0) += n` on a u32, which wraps in a release build.
  unfoldable pub entry_add : K → ℕ → List (K × ℕ) → List (K × ℕ)
  entry_add k n [] = (k, n % 2 ^ 32) ∷ []
  entry_add k n ((j, c) ∷ m) =
      if j == k then (j, (c + n) % 2 ^ 32) ∷ m else (j, c) ∷ entry_add k n m

  pub count-entry_add :
      (k j : K) (n : ℕ) (m : List (K × ℕ))
      → count (entry_add k n m) j ≡ (if k == j then (count m j + n) % 2 ^ 32 else count m j)
  unfolding count get entry_add
  count-entry_add k j n [] = ground arith
  count-entry_add k j n ((i, c) ∷ m) =
      ground (arith, count-entry_add k j n m, ==_congr i k j, ==_congr_right k j i)

module _ {ℓ κ} {A : Type ℓ} ⦃e : Eq A⦄ where
  forall_contains :
      (P : A → Type κ) (xs : List A)
      → ((a b : A) → (a == b) ≡ true → P a → P b)
      → All P xs
      → (a : A) → contains xs a ≡ true
      → P a
  forall_contains P xs congr h a c =
      let (x, m, q) = mem-contains xs a c in congr x a q (All-mem P xs h m)

module _ {ℓ κ} {A : Type ℓ} {B : Type κ} ⦃e : Eq A⦄ where
  -- A loop over a set that returns early is silent exactly when its body is silent at every value
  -- the set contains, for a body that treats equal values alike.
  pub find_map-none_set :
      (f : A → Option B) (xs : List A)
      → ((a b : A) → (a == b) ≡ true → f a ≡ none → f b ≡ none)
      → (find_map f xs ≡ none) ↔ ((a : A) → contains xs a ≡ true → f a ≡ none)
  find_map-none_set f xs congr = (
    λ h. forall_contains (λ a. f a ≡ none) xs congr ((find_map-none f xs).0 h),
    λ h. (find_map-none f xs).1 (All-of_mem (λ a. f a ≡ none) xs (λ x m. h x (contains-mem xs m))),
  )

  -- What such a loop returns, its body returned at a value of the set.
  pub find_map-some_set :
      (f : A → Option B) (xs : List A) {b : B}
      → find_map f xs ≡ some b
      → (x : A) × (contains xs x ≡ true) × (f x ≡ some b)
  find_map-some_set f xs h = let (x, m, q) = find_map-some f xs h in (x, contains-mem xs m, q)
