-- ===== src/Prelude/Equality.antt =====
-- Equality tests as an interface, with the instances that the program uses.
use Prim.Native.Nat.{ℕ, ◌+◌}
use mathlib.Core.Path.{◌≡◌, refl}
use mathlib.Core.Logic.{◌↔◌}
use mathlib.Core.Bool.{Bool, true, false, ◌&&◌, ◌||◌}
use mathlib.Core.List.{List, [], ◌∷◌}
use native.Mathlib.Omega.{arith}
use tinch_pp.Prelude.Tests.{nat_beq, nat_beq_iff, if◌then◌else◌}

-- `operator==` decides the equality of its operands.
pub record Eq {ℓ} (T : Type ℓ) : Type ℓ where
  pub beq : (left right : T) → Bool
  pub beq_iff : (left right : T) → (beq left right ≡ true) ↔ (left ≡ right)

pub beq_refl {ℓ} : {T : Type ℓ} (eq : Eq T) (t : T) → eq.beq t t ≡ true
beq_refl eq t = (eq.beq_iff t t).1 refl

infix 50 ◌==◌
abbrev pub ◌==◌ {ℓ} : {T : Type ℓ} ⦃eq : Eq T⦄ (left right : T) → Bool
◌==◌ ⦃eq⦄ left right = eq.beq left right

instance abbrev pub nat_eq : Eq ℕ
nat_eq = record { beq = nat_beq; beq_iff = nat_beq_iff }

-- `operator==` of std::string, std::vector and std::list.
module _ {ℓ} {A : Type ℓ} (e : Eq A) where
  unfoldable pub list_beq : List A → List A → Bool
  list_beq [] [] = true
  list_beq (x ∷ xs) (y ∷ ys) = e.beq x y && list_beq xs ys
  list_beq _ _ = false

  pub list_beq_iff : (xs ys : List A) → (list_beq xs ys ≡ true) ↔ (xs ≡ ys)
  unfolding list_beq
  list_beq_iff [] [] = ground arith
  list_beq_iff (x ∷ xs) [] = ground arith
  list_beq_iff [] (y ∷ ys) = ground arith
  list_beq_iff (x ∷ xs) (y ∷ ys) = ground (arith, e.beq_iff x y, list_beq_iff xs ys)

instance abbrev pub bytes_eq : Eq (List ℕ)
bytes_eq = record { beq = list_beq nat_eq; beq_iff = list_beq_iff nat_eq }

-- `operator==` of std::pair.
module _ {ℓ κ} {A : Type ℓ} {B : Type κ} (a : Eq A) (b : Eq B) where
  unfoldable pub pair_beq : A × B → A × B → Bool
  pair_beq p q = a.beq p.0 q.0 && b.beq p.1 q.1

  pub pair_beq_iff : (p q : A × B) → (pair_beq p q ≡ true) ↔ (p ≡ q)
  unfolding pair_beq
  pair_beq_iff (x, y) (v, w) = ground (arith, a.beq_iff x v, b.beq_iff y w)

-- std::list::remove, and membership.
module _ {ℓ} {A : Type ℓ} ⦃e : Eq A⦄ where
  unfoldable pub contains : A → List A → Bool
  contains a [] = false
  contains a (x ∷ xs) = x == a || contains a xs

  unfoldable pub remove : A → List A → List A
  remove a [] = []
  remove a (x ∷ xs) = if x == a then remove a xs else x ∷ remove a xs

  -- The number of occurrences.
  unfoldable pub count : A → List A → ℕ
  count a [] = 0
  count a (x ∷ xs) = (if x == a then 1 else 0) + count a xs

  pub contains-remove :
      (a b : A) (xs : List A) → contains b (remove a xs) ≡ (if a == b then false else contains b xs)
  unfolding contains remove
  contains-remove a b [] = ground arith
  contains-remove a b (x ∷ xs) =
      ground (arith, contains-remove a b xs, e.beq_iff x a, e.beq_iff x b, e.beq_iff a b)
