-- ===== src/Prelude/Lists.antt =====
-- Lists measured by native numbers, the iterator adaptors the program uses over Boolean tests,
-- and what a search through a list says of its elements.
use Prim.Native.Nat.{ℕ, zero, suc, ◌+◌, min}
use mathlib.Core.Path.{◌≡◌, refl}
use mathlib.Core.Logic.{◌↔◌, inl, inr}
use mathlib.Core.Bool.{Bool, true, false, ◌&&◌, ◌||◌}
use mathlib.Core.Option.{Option, none, some}
use mathlib.Core.List.{List, [], ◌∷◌, ◌++◌, Memᴰ}
use native.Mathlib.Omega.{arith}
use plugkill.Prelude.Tests.{if◌then◌else◌, or_else, Bool-cases, Option-cases}

module _ {ℓ} {A : Type ℓ} where
  abbrev pub length : List A → ℕ
  length [] = 0
  length (x ∷ xs) = suc (length xs)

  abbrev pub take : ℕ → List A → List A
  take zero xs = []
  take (suc n) [] = []
  take (suc n) (x ∷ xs) = x ∷ take n xs

  abbrev pub drop : ℕ → List A → List A
  drop zero xs = xs
  drop (suc n) [] = []
  drop (suc n) (x ∷ xs) = drop n xs

  pub length-take : (n : ℕ) (xs : List A) → length (take n xs) ≡ min n (length xs)
  length-take zero xs = omega arith
  length-take (suc n) [] = omega arith
  length-take (suc n) (x ∷ xs) = omega (arith, length-take n xs)

  pub length-append : (xs ys : List A) → length (xs ++ ys) ≡ length xs + length ys
  length-append [] ys = omega arith
  length-append (x ∷ xs) ys = omega (arith, length-append xs ys)

  -- `iter().any`, `iter().filter`; the call in the body is structural.
  unfoldable pub any : (A → Bool) → List A → Bool
  any p [] = false
  any p (x ∷ xs) = p x || any p xs

  unfoldable pub every : (A → Bool) → List A → Bool
  every p [] = true
  every p (x ∷ xs) = p x && every p xs

  unfoldable pub filter : (A → Bool) → List A → List A
  filter p [] = []
  filter p (x ∷ xs) = let rest = filter p xs in if p x then x ∷ rest else rest

  -- What holds of every element.
  abbrev pub All {κ} : (A → Type κ) → List A → Type κ
  All P [] = Unit
  All P (x ∷ xs) = P x × All P xs

module _ {ℓ κ} {A : Type ℓ} (P : A → Type κ) where
  pub All-mem : {x : A} (xs : List A) → All P xs → Memᴰ x xs → P x
  All-mem [] h m = elim m [ ]
  All-mem (y ∷ xs) h (Memᴰ.head e) = rw e h.0
  All-mem (y ∷ xs) h (Memᴰ.tail m) = All-mem xs h.1 m

  pub All-of_mem : (xs : List A) → ((x : A) → Memᴰ x xs → P x) → All P xs
  All-of_mem [] h = tt
  All-of_mem (x ∷ xs) h = (h x (Memᴰ.head refl), All-of_mem xs (λ y m. h y (Memᴰ.tail m)))

  pub All-filter : (p : A → Bool) (xs : List A) → All P xs → All P (filter p xs)
  unfolding filter
  All-filter p [] h = tt
  All-filter p (x ∷ xs) h = elim (Bool-cases (p x)) [
    | inl e ↦ rw e (h.0, All-filter p xs h.1)
    | inr e ↦ rw e (All-filter p xs h.1)
  ]

module _ {ℓ} {A : Type ℓ} where
  pub filter-All : (p : A → Bool) (xs : List A) → All (λ x. p x ≡ true) (filter p xs)
  unfolding filter
  filter-All p [] = tt
  filter-All p (x ∷ xs) = elim (Bool-cases (p x)) [
    | inl e ↦ rw e (e, filter-All p xs)
    | inr e ↦ rw e (filter-All p xs)
  ]

module _ {ℓ κ} {A : Type ℓ} {B : Type κ} where
  -- A `for` loop whose body returns early: the first result.
  unfoldable pub find_map : (A → Option B) → List A → Option B
  find_map f [] = none
  find_map f (x ∷ xs) = or_else (f x) (find_map f xs)

  unfoldable pub filter_map : (A → Option B) → List A → List B
  filter_map f [] = []
  filter_map f (x ∷ xs) =
      let rest = filter_map f xs in elim (f x) [ none ↦ rest | some y ↦ y ∷ rest ]

  find_map-none_at :
      (f : A → Option B) (xs : List A) → find_map f xs ≡ none → All (λ x. f x ≡ none) xs
  unfolding find_map
  find_map-none_at f [] h = tt
  find_map-none_at f (x ∷ xs) h = (ground arith, find_map-none_at f xs (ground arith))

  find_map-of_none :
      (f : A → Option B) (xs : List A) → All (λ x. f x ≡ none) xs → find_map f xs ≡ none
  unfolding find_map
  find_map-of_none f [] h = refl
  find_map-of_none f (x ∷ xs) h = rw h.0 (find_map-of_none f xs h.1)

  -- The loop runs to its end exactly when no element returns.
  pub find_map-none :
      (f : A → Option B) (xs : List A) → (find_map f xs ≡ none) ↔ All (λ x. f x ≡ none) xs
  find_map-none f xs = (find_map-none_at f xs, find_map-of_none f xs)

  -- What the loop returns, some element returned.
  pub find_map-some :
      (f : A → Option B) (xs : List A) {b : B}
      → find_map f xs ≡ some b
      → (x : A) × Memᴰ x xs × (f x ≡ some b)
  unfolding find_map
  find_map-some f [] h = ground arith
  find_map-some f (x ∷ xs) h = elim (Option-cases (f x)) [
    | inl e ↦ let (y, m, q) = find_map-some f xs (ground arith) in (y, Memᴰ.tail m, q)
    | inr (c, e) ↦ (x, Memᴰ.head refl, ground arith)
  ]

-- The first element that passes: `iter().find`.
abbrev pub find {ℓ} : {A : Type ℓ} → (A → Bool) → List A → Option A
find p = find_map (λ x. if p x then some x else none)
