-- ===== src/Connection/Reads.antt =====
-- One side of a pair reads a part of a message, or the rest of it (impl/node_async_tcp_ip.cpp).
use tinch_pp.Prelude.{
  ℕ, ◌<◌, ◌≡◌, ◌∙◌, ◌⊎◌, inl, inr, ap, sym, subst, [], ◌∷◌, ◌++◌, Option, none, some, append_assoc,
  length, length-append, take, drop, arith, false,
}
use tinch_pp.Types.{MsgSeq}
use tinch_pp.Spirit.{Spirit}
use tinch_pp.Connection.{Connection, Environment, steps, ReadCallback}
use tinch_pp.Connection.Steps.{checked_read}
use tinch_pp.Connection.Messages.{Frame}
use tinch_pp.Connection.Fronts.{waits_with, read-joins, reads-part}
use tinch_pp.Connection.Splits.{split_alone}
use tinch_pp.Connection.Pairs.{Pair, a_reads, b_reads, amount, normally, pair_step, reads_from}

pub amount-pos : (n : ℕ) → 0 < amount n
amount-pos n = ground arith

module _ (sp : Spirit) (env : Environment) where
  pub reads_from-steps :
      (n : ℕ) (callback : ReadCallback) (front bytes : MsgSeq) (k k' : Connection)
      → 0 < length bytes
      → checked_read sp env false (take (amount n) bytes) (waits_with callback front k) ≡ steps k'
      → reads_from sp env n (waits_with callback front k) bytes ≡ some (k', drop (amount n) bytes)
  unfolding reads_from
  reads_from-steps n callback front [] k k' l h = absurd (omega (arith, l))
  reads_from-steps n callback front (x ∷ bytes) k k' l h =
      ap (λ r. normally {A = Connection × MsgSeq} r (λ c. (c, drop (amount n) (x ∷ bytes)))) h

  -- A message with nothing behind it: a read takes a part that does not complete it, or the rest.
  pub reads_alone :
      (n : ℕ) (callback : ReadCallback) (m front rest : MsgSeq) (k k' : Connection)
      → Frame sp m
      → front ++ rest ≡ m
      → 0 < length rest
      → checked_read sp env false m (waits_with callback [] k) ≡ steps k'
      → ((d : MsgSeq) × (r : MsgSeq) × ((front ++ d) ++ r ≡ m)
          × (0 < length r)
          × (length r < length rest)
          × (reads_from sp env n (waits_with callback front k) rest
              ≡ some (waits_with callback (front ++ d) k, r)))
        ⊎ (reads_from sp env n (waits_with callback front k) rest ≡ some (k', []))
  reads_alone n callback m front rest k k' f e l h =
      elim (split_alone (amount n) rest l (amount-pos n)) [
        | inl (d, r, q, a, b, t, u) ↦
            let whole : (front ++ d) ++ r ≡ m =
              append_assoc front d r ∙ ap (λ s. front ++ s) (sym q) ∙ e in
            inl (
              d,
              r,
              whole,
              b,
              omega (arith, ap length q, length-append d r, a),
              reads_from-steps n callback front rest k (waits_with callback (front ++ d) k) l (
                    ap (λ s. checked_read sp env false s (waits_with callback front k)) t
                    ∙ reads-part sp env callback front d r k (subst (Frame sp) (sym whole) f) b)
                  ∙ ap (λ s. some (waits_with callback (front ++ d) k, s)) u,
            )
        | inr (t, u) ↦ inr (
            reads_from-steps n callback front rest k k' l (
              ap (λ s. checked_read sp env false s (waits_with callback front k)) t
              ∙ read-joins sp env callback front rest k
              ∙ ap (λ s. checked_read sp env false s (waits_with callback [] k)) e
              ∙ h)
            ∙ ap (λ s. some (k', s)) u)
      ]

module _ (sp : Spirit) (env_a env_b : Environment) where
  pub a_reads-steps :
      (n : ℕ) (a a' b : Connection) (to_a left to_b : MsgSeq)
      → reads_from sp env_a n a to_a ≡ some (a', left)
      → pair_step sp env_a env_b (a_reads n) (record { a = a; b = b; to_a = to_a; to_b = to_b })
        ≡ some (record { a = a'; b = b; to_a = left; to_b = to_b })
  unfolding pair_step
  a_reads-steps n a a' b to_a left to_b h =
      ap
        (λ o. elim o as (λ _. Option Pair) [
          | none ↦ none
          | some (c, rest) ↦ some (record { a = c; b = b; to_a = rest; to_b = to_b })
        ])
        h

  pub b_reads-steps :
      (n : ℕ) (a b b' : Connection) (to_a to_b left : MsgSeq)
      → reads_from sp env_b n b to_b ≡ some (b', left)
      → pair_step sp env_a env_b (b_reads n) (record { a = a; b = b; to_a = to_a; to_b = to_b })
        ≡ some (record { a = a; b = b'; to_a = to_a; to_b = left })
  unfolding pair_step
  b_reads-steps n a b b' to_a to_b left h =
      ap
        (λ o. elim o as (λ _. Option Pair) [
          | none ↦ none
          | some (c, rest) ↦ some (record { a = a; b = c; to_a = to_a; to_b = rest })
        ])
        h
