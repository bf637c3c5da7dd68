-- ===== src/Maps.antt =====
-- `std::map` as the node and its connector use it: entries in the order of their keys, where two keys
-- are the same if neither is below the other. `insert` keeps an entry that is there. These are the
-- documented results where the comparison orders the keys of the map. `operator <` on pids orders them
-- while they have one serial number (Node/Ordering); beyond that a map promises nothing, and neither
-- `find` nor `erase` here says what it does.
use tinch_pp.Prelude.{
  ◌≡◌, refl, Bool, true, false, not, ◌&&◌, ◌||◌, List, [], ◌∷◌, ap, Option, none, some, arith, ltb,
  nat_beq, if◌then◌else◌, Bool-cases, Option-cases, inl, inr, ◌↔◌,
}
use tinch_pp.Types.{EPid, MsgSeq, pid_lt}

-- The equivalence of keys under a comparison.
abbrev pub same_under {ℓ} : {K : Type ℓ} → (K → K → Bool) → K → K → Bool
same_under lt a b = not (lt a b) && not (lt b a)

-- The comparison of a map, with what a lookup needs of it.
pub record Key {ℓ} (K : Type ℓ) : Type ℓ where
  pub lt : K → K → Bool
  pub same_refl : (a : K) → same_under lt a a ≡ true
  pub same_trans : (a b c : K) → same_under lt a b ≡ true → same_under lt a c ≡ same_under lt b c

abbrev pub same {ℓ} : {K : Type ℓ} ⦃key : Key K⦄ → K → K → Bool
same ⦃key⦄ = same_under key.lt

module _ {ℓ κ} {K : Type ℓ} {V : Type κ} ⦃key : Key K⦄ where
  unfoldable pub find : K → List (K × V) → Option V
  find k [] = none
  find k ((k', v) ∷ m) = if same k k' then some v else find k m

  -- The place of a new key: before the first that is above it.
  unfoldable pub place : K → V → List (K × V) → List (K × V)
  place k v [] = (k, v) ∷ []
  place k v ((k', v') ∷ m) = if key.lt k k' then (k, v) ∷ (k', v') ∷ m else (k', v') ∷ place k v m

  unfoldable pub insert : K → V → List (K × V) → List (K × V)
  unfolding find place
  insert k v m = elim (find k m) [ none ↦ place k v m | some w ↦ m ]

  unfoldable pub erase : K → List (K × V) → List (K × V)
  erase k [] = []
  erase k ((k', v) ∷ m) = if same k k' then erase k m else (k', v) ∷ erase k m

  pub find-same : (k j : K) (m : List (K × V)) → same k j ≡ true → find k m ≡ find j m
  unfolding find
  find-same k j [] h = refl
  find-same k j ((k', v) ∷ m) h = ground (arith, find-same k j m h, key.same_trans k j k')

  pub find-erase :
      (k j : K) (m : List (K × V)) → find k (erase j m) ≡ (if same j k then none else find k m)
  unfolding find erase
  find-erase k j [] = ground arith
  find-erase k j ((k', v) ∷ m) =
      ground (
        arith,
        find-erase k j m,
        key.same_trans j k k',
        key.same_trans k j k',
        key.same_trans j k' k,
      )

  pub find-place :
      (k j : K) (v : V) (m : List (K × V))
      → find j m ≡ none
      → find k (place j v m) ≡ (if same j k then some v else find k m)
  unfolding find place
  find-place k j v [] h = ground arith
  find-place k j v ((k', v') ∷ m) h = elim (Bool-cases (same j k')) [
    | inl e ↦ absurd (ground arith)
    | inr e ↦
        ground
          (arith, find-place k j v m (ground arith), key.same_trans j k k', key.same_trans k j k')
  ]

  pub find-insert :
      (k j : K) (v : V) (m : List (K × V))
      → find k (insert j v m)
        ≡ elim (find j m) [ none ↦ if same j k then some v else find k m | some w ↦ find k m ]
  unfolding insert
  find-insert k j v m = elim (Option-cases (find j m)) [
    | inl e ↦ ground (arith, find-place k j v m e)
    | inr (w, e) ↦ ground arith
  ]

abbrev pub keys {ℓ κ} : {K : Type ℓ} {V : Type κ} → List (K × V) → List K
keys [] = []
keys ((k, v) ∷ m) = k ∷ keys m

-- `operator <` of std::string.
unfoldable pub bytes_lt : MsgSeq → MsgSeq → Bool
bytes_lt [] [] = false
bytes_lt [] (y ∷ ys) = true
bytes_lt (x ∷ xs) [] = false
bytes_lt (x ∷ xs) (y ∷ ys) = ltb x y || (nat_beq x y && bytes_lt xs ys)

-- Neither of two strings is below the other only if they are equal.
pub bytes_same : (xs ys : MsgSeq) → (same_under bytes_lt xs ys ≡ true) ↔ (xs ≡ ys)
unfolding bytes_lt
bytes_same [] [] = ground arith
bytes_same [] (y ∷ ys) = ground arith
bytes_same (x ∷ xs) [] = ground arith
bytes_same (x ∷ xs) (y ∷ ys) = ground (arith, bytes_same xs ys)

instance abbrev pub name_key : Key MsgSeq
name_key = record {
  lt = bytes_lt;
  same_refl = λ a. (bytes_same a a).1 refl;
  same_trans = λ a b c h. ap (λ d. same_under bytes_lt d c) ((bytes_same a b).0 h);
}

pub pid_same_refl : (a : EPid) → same_under pid_lt a a ≡ true
unfolding pid_lt
pid_same_refl a = ground arith

pub pid_same_trans :
    (a b c : EPid) → same_under pid_lt a b ≡ true → same_under pid_lt a c ≡ same_under pid_lt b c
unfolding pid_lt
pid_same_trans a b c h = ground arith

instance abbrev pub pid_key : Key EPid
pid_key = record { lt = pid_lt; same_refl = pid_same_refl; same_trans = pid_same_trans }
