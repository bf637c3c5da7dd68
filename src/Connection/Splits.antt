-- ===== src/Connection/Splits.antt =====
-- What a read takes of the bytes that have arrived (impl/node_async_tcp_ip.cpp).
use tinch_pp.Prelude.{
  ℕ, zero, suc, ◌<◌, ◌≡◌, ◌⊎◌, inl, inr, refl, ap, [], ◌∷◌, ◌++◌, take, drop, length, arith,
}
use tinch_pp.Types.{MsgSeq}

take-drop : (n : ℕ) (s : MsgSeq) → s ≡ take n s ++ drop n s
take-drop zero s = refl
take-drop (suc n) [] = refl
take-drop (suc n) (x ∷ s) = ap (λ t. x ∷ t) (take-drop n s)

-- A read that ends within a message, and one that completes it and takes bytes from behind it.
abbrev pub Within : ℕ → MsgSeq → MsgSeq → Type 0
Within n rest extra =
    (d : MsgSeq) × (r : MsgSeq) × (rest ≡ d ++ r)
    × (0 < length d)
    × (0 < length r)
    × (take n (rest ++ extra) ≡ d)
    × (drop n (rest ++ extra) ≡ r ++ extra)

abbrev pub Beyond : ℕ → MsgSeq → MsgSeq → Type 0
Beyond n rest extra =
    (y : MsgSeq) × (z : MsgSeq) × (extra ≡ y ++ z)
    × (take n (rest ++ extra) ≡ rest ++ y)
    × (drop n (rest ++ extra) ≡ z)

pub split :
    (n : ℕ) (rest extra : MsgSeq)
    → 0 < length rest
    → 0 < n
    → Within n rest extra ⊎ Beyond n rest extra
split zero rest extra l m = absurd (omega (arith, m))
split n [] extra l m = absurd (omega (arith, l))
split (suc n) (x ∷ []) extra l m = inr (take n extra, drop n extra, take-drop n extra, refl, refl)
split (suc zero) (x ∷ x' ∷ rest) extra l m =
    inl (x ∷ [], x' ∷ rest, refl, omega arith, omega arith, refl, refl)
split (suc (suc n)) (x ∷ x' ∷ rest) extra l m =
    elim (split (suc n) (x' ∷ rest) extra (omega arith) (omega arith)) [
      | inl (d, r, e, a, b, t, u) ↦
          inl (x ∷ d, r, ap (λ s. x ∷ s) e, omega arith, b, ap (λ s. x ∷ s) t, u)
      | inr (y, z, e, t, u) ↦ inr (y, z, e, ap (λ s. x ∷ s) t, u)
    ]

take-nil : (n : ℕ) → take {A = ℕ} n [] ≡ []
take-nil zero = refl
take-nil (suc n) = refl

drop-nil : (n : ℕ) → drop {A = ℕ} n [] ≡ []
drop-nil zero = refl
drop-nil (suc n) = refl

-- The same with nothing behind the message.
pub split_alone :
    (n : ℕ) (rest : MsgSeq)
    → 0 < length rest
    → 0 < n
    → ((d : MsgSeq) × (r : MsgSeq) × (rest ≡ d ++ r)
        × (0 < length d)
        × (0 < length r)
        × (take n rest ≡ d)
        × (drop n rest ≡ r))
      ⊎ ((take n rest ≡ rest) × (drop n rest ≡ []))
split_alone zero rest l m = absurd (omega (arith, m))
split_alone n [] l m = absurd (omega (arith, l))
split_alone (suc n) (x ∷ []) l m = inr (ap (λ s. x ∷ s) (take-nil n), drop-nil n)
split_alone (suc zero) (x ∷ x' ∷ rest) l m =
    inl (x ∷ [], x' ∷ rest, refl, omega arith, omega arith, refl, refl)
split_alone (suc (suc n)) (x ∷ x' ∷ rest) l m =
    elim (split_alone (suc n) (x' ∷ rest) (omega arith) (omega arith)) [
      | inl (d, r, e, a, b, t, u) ↦
          inl (x ∷ d, r, ap (λ s. x ∷ s) e, omega arith, b, ap (λ s. x ∷ s) t, u)
      | inr (t, u) ↦ inr (ap (λ s. x ∷ s) t, u)
    ]
