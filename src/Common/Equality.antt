-- ===== src/Common/Equality.antt =====
-- Tests of equality, as an interface, and maps as lists of pairs.
use Prim.Native.Nat.{ℕ}
use mathlib.Core.Path.{◌≡◌, refl}
use mathlib.Core.Bool.{Bool, true, false, ◌&&◌, ◌||◌}
pub use mathlib.Core.List.{map}
use mathlib.Core.List.{List, [], ◌∷◌}
use mathlib.Core.Option.{Option, none, some}
use native.Mathlib.Omega.{arith}
use army.Common.Tests.{◌==◌, if◌then◌else◌}

pub record Eq {ℓ} (A : Type ℓ) : Type ℓ where
  pub test : A → A → Bool
  pub sound : (a b : A) → test a b ≡ true → a ≡ b
  pub reflexive : (a : A) → test a a ≡ true

infix 50 ◌=?◌
abbrev pub ◌=?◌ {ℓ} : {A : Type ℓ} ⦃e : Eq A⦄ → A → A → Bool
◌=?◌ ⦃e⦄ = e.test

pub sound_ℕ : (a b : ℕ) → (a == b) ≡ true → a ≡ b
sound_ℕ a b h = ground arith

pub reflexive_ℕ : (a : ℕ) → (a == a) ≡ true
reflexive_ℕ a = ground arith

pub and_left : (a b : Bool) → (a && b) ≡ true → a ≡ true
and_left true b h = refl
and_left false b h = h

pub and_right : (a b : Bool) → (a && b) ≡ true → b ≡ true
and_right true b h = h
and_right false b h = absurd (cc h)

instance abbrev pub nat_eq : Eq ℕ
nat_eq = record { test = ◌==◌; sound = sound_ℕ; reflexive = reflexive_ℕ }

module _ {ℓ} {A : Type ℓ} ⦃e : Eq A⦄ where
  abbrev pub same_list : List A → List A → Bool
  same_list [] [] = true
  same_list [] (y ∷ ys) = false
  same_list (x ∷ xs) [] = false
  same_list (x ∷ xs) (y ∷ ys) = e.test x y && same_list xs ys

  pub same_list_sound : (xs ys : List A) → same_list xs ys ≡ true → xs ≡ ys
  same_list_sound [] [] h = refl
  same_list_sound [] (y ∷ ys) h = absurd (cc h)
  same_list_sound (x ∷ xs) [] h = absurd (cc h)
  same_list_sound (x ∷ xs) (y ∷ ys) h =
      let front : x ≡ y = e.sound x y (and_left _ _ h) in
      let back : xs ≡ ys = same_list_sound xs ys (and_right (e.test x y) _ h) in
      rw (front, back) refl

  pub same_list_refl : (xs : List A) → same_list xs xs ≡ true
  same_list_refl [] = refl
  same_list_refl (x ∷ xs) = rw (e.reflexive x, same_list_refl xs) refl

  instance abbrev pub list_eq : Eq (List A)
  list_eq = record { test = same_list; sound = same_list_sound; reflexive = same_list_refl }

  -- `a in xs`
  abbrev pub contains : A → List A → Bool
  contains a [] = false
  contains a (x ∷ xs) = e.test a x || contains a xs

module _ {ℓ κ} {A : Type ℓ} {B : Type κ} ⦃e : Eq A⦄ where
  -- The first entry of a key.
  abbrev pub lookup : A → List (A × B) → Option B
  lookup a [] = none
  lookup a ((x, b) ∷ xs) = if e.test a x then some b else lookup a xs

module _ {ℓ} {A : Type ℓ} where
  -- `[x for x in xs if test x]`
  abbrev pub filter : (A → Bool) → List A → List A
  filter test [] = []
  filter test (x ∷ xs) = if test x then x ∷ filter test xs else filter test xs
