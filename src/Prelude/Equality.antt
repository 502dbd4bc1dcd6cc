-- ===== src/Prelude/Equality.antt =====
-- Rust's `Eq` on the types the program compares: an interface with the laws of an equivalence,
-- and its instances. `EdidId` compares less than its fields, so `eq` need not be identity.
use Prim.Native.Nat.{ℕ}
use mathlib.Core.Path.{◌≡◌, refl}
use mathlib.Core.Bool.{Bool, true, false, ◌&&◌}
use mathlib.Core.Option.{Option, none, some}
use mathlib.Core.List.{List, [], ◌∷◌}
use native.Mathlib.Omega.{arith}
use plugkill.Prelude.Tests.{eqb, Bool_ext}

pub record Eq {ℓ} (A : Type ℓ) : Type ℓ where
  pub eq : A → A → Bool
  pub eq_refl : (a : A) → eq a a ≡ true
  pub eq_sym : (a b : A) → eq a b ≡ true → eq b a ≡ true
  pub eq_trans : (a b c : A) → eq a b ≡ true → eq b c ≡ true → eq a c ≡ true

infix 50 ◌==◌
abbrev pub ◌==◌ {ℓ} : {A : Type ℓ} ⦃e : Eq A⦄ → A → A → Bool
◌==◌ ⦃e⦄ = e.eq

module _ {ℓ} {A : Type ℓ} ⦃e : Eq A⦄ where
  -- Equal values compare alike with any third one.
  pub ==_congr : (a b c : A) → (a == b) ≡ true → (a == c) ≡ (b == c)
  ==_congr a b c h =
      Bool_ext (a == c) (b == c) (e.eq_trans b a c (e.eq_sym a b h)) (e.eq_trans a b c h)

  pub ==_comm : (a b : A) → (a == b) ≡ (b == a)
  ==_comm a b = Bool_ext (a == b) (b == a) (e.eq_sym a b) (e.eq_sym b a)

  pub ==_congr_right : (a b c : A) → (a == b) ≡ true → (c == a) ≡ (c == b)
  ==_congr_right a b c h =
      Bool_ext (c == a) (c == b) (λ k. e.eq_trans c a b k h)
        (λ k. e.eq_trans c b a k (e.eq_sym a b h))

pub eqb_refl : (a : ℕ) → eqb a a ≡ true
eqb_refl a = ground arith

pub eqb_sym : (a b : ℕ) → eqb a b ≡ true → eqb b a ≡ true
eqb_sym a b h = ground arith

pub eqb_trans : (a b c : ℕ) → eqb a b ≡ true → eqb b c ≡ true → eqb a c ≡ true
eqb_trans a b c h k = ground arith

instance abbrev pub nat_eq : Eq ℕ
nat_eq = record { eq = eqb; eq_refl = eqb_refl; eq_sym = eqb_sym; eq_trans = eqb_trans }

module _ {ℓ} {A : Type ℓ} ⦃e : Eq A⦄ where
  unfoldable pub list_beq : List A → List A → Bool
  list_beq [] [] = true
  list_beq [] (y ∷ ys) = false
  list_beq (x ∷ xs) [] = false
  list_beq (x ∷ xs) (y ∷ ys) = x == y && list_beq xs ys

  pub list_beq_refl : (xs : List A) → list_beq xs xs ≡ true
  unfolding list_beq
  list_beq_refl [] = refl
  list_beq_refl (x ∷ xs) = ground (arith, e.eq_refl x, list_beq_refl xs)

  pub list_beq_sym : (xs ys : List A) → list_beq xs ys ≡ true → list_beq ys xs ≡ true
  unfolding list_beq
  list_beq_sym [] [] h = refl
  list_beq_sym [] (y ∷ ys) h = h
  list_beq_sym (x ∷ xs) [] h = h
  list_beq_sym (x ∷ xs) (y ∷ ys) h = ground (arith, e.eq_sym x y, list_beq_sym xs ys)

  pub list_beq_trans :
      (xs ys zs : List A) → list_beq xs ys ≡ true → list_beq ys zs ≡ true → list_beq xs zs ≡ true
  unfolding list_beq
  list_beq_trans [] [] zs h k = k
  list_beq_trans [] (y ∷ ys) zs h k = ground arith
  list_beq_trans (x ∷ xs) [] zs h k = ground arith
  list_beq_trans (x ∷ xs) (y ∷ ys) [] h k = k
  list_beq_trans (x ∷ xs) (y ∷ ys) (z ∷ zs) h k =
      ground (arith, e.eq_trans x y z, list_beq_trans xs ys zs)

instance abbrev pub list_eq {ℓ} : {A : Type ℓ} ⦃e : Eq A⦄ → Eq (List A)
list_eq = record {
  eq = list_beq;
  eq_refl = list_beq_refl;
  eq_sym = list_beq_sym;
  eq_trans = list_beq_trans;
}

module _ {ℓ} {A : Type ℓ} ⦃e : Eq A⦄ where
  unfoldable pub option_beq : Option A → Option A → Bool
  option_beq none none = true
  option_beq none (some y) = false
  option_beq (some x) none = false
  option_beq (some x) (some y) = x == y

  pub option_beq_refl : (x : Option A) → option_beq x x ≡ true
  unfolding option_beq
  option_beq_refl none = refl
  option_beq_refl (some x) = e.eq_refl x

  pub option_beq_sym : (x y : Option A) → option_beq x y ≡ true → option_beq y x ≡ true
  unfolding option_beq
  option_beq_sym none none h = refl
  option_beq_sym none (some y) h = h
  option_beq_sym (some x) none h = h
  option_beq_sym (some x) (some y) h = e.eq_sym x y h

  pub option_beq_trans :
      (x y z : Option A) → option_beq x y ≡ true → option_beq y z ≡ true → option_beq x z ≡ true
  unfolding option_beq
  option_beq_trans none none z h k = k
  option_beq_trans none (some y) z h k = ground arith
  option_beq_trans (some x) none z h k = ground arith
  option_beq_trans (some x) (some y) none h k = k
  option_beq_trans (some x) (some y) (some z) h k = e.eq_trans x y z h k

instance abbrev pub option_eq {ℓ} : {A : Type ℓ} ⦃e : Eq A⦄ → Eq (Option A)
option_eq = record {
  eq = option_beq;
  eq_refl = option_beq_refl;
  eq_sym = option_beq_sym;
  eq_trans = option_beq_trans;
}

-- `derive(PartialEq)` on a struct: the comparison of its fields, read out by `f`.
abbrev pub eq_on {ℓ κ} : {A : Type ℓ} {B : Type κ} ⦃e : Eq A⦄ → (B → A) → Eq B
eq_on ⦃e⦄ f = record {
  eq = λ x y. e.eq (f x) (f y);
  eq_refl = λ x. e.eq_refl (f x);
  eq_sym = λ x y. e.eq_sym (f x) (f y);
  eq_trans = λ x y z. e.eq_trans (f x) (f y) (f z);
}

module _ {ℓ κ} {A : Type ℓ} {B : Type κ} ⦃d : Eq A⦄ ⦃e : Eq B⦄ where
  unfoldable pub pair_beq : A × B → A × B → Bool
  pair_beq (a, b) (a', b') = a == a' && b == b'

  pub pair_beq_refl : (p : A × B) → pair_beq p p ≡ true
  unfolding pair_beq
  pair_beq_refl (a, b) = ground (arith, d.eq_refl a, e.eq_refl b)

  pub pair_beq_sym : (p q : A × B) → pair_beq p q ≡ true → pair_beq q p ≡ true
  unfolding pair_beq
  pair_beq_sym (a, b) (a', b') h = ground (arith, d.eq_sym a a', e.eq_sym b b')

  pub pair_beq_trans :
      (p q r : A × B) → pair_beq p q ≡ true → pair_beq q r ≡ true → pair_beq p r ≡ true
  unfolding pair_beq
  pair_beq_trans (a, b) (a', b') (a'', b'') h k =
      ground (arith, d.eq_trans a a' a'', e.eq_trans b b' b'')

instance abbrev pub pair_eq {ℓ κ} : {A : Type ℓ} {B : Type κ} ⦃d : Eq A⦄ ⦃e : Eq B⦄ → Eq (A × B)
pair_eq = record {
  eq = pair_beq;
  eq_refl = pair_beq_refl;
  eq_sym = pair_beq_sym;
  eq_trans = pair_beq_trans;
}
