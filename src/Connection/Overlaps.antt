-- ===== src/Connection/Overlaps.antt =====
-- A read that takes the status and a part of the challenge, or all of both (impl/node_async_tcp_ip.cpp,
-- impl/node_connection_state.cpp).
use tinch_pp.Prelude.{
  ℕ, inl, inr, ◌+◌, ◌^◌, ◌<◌, ◌≡◌, ◌∙◌, refl, sym, ap, subst, [], ◌∷◌, ◌++◌, Option, some, length,
  false, arith, append-nil, append_assoc, length-append, take, drop,
}
use tinch_pp.Types.{MsgSeq}
use tinch_pp.Spirit.{Spirit}
use tinch_pp.Connection.{
  Connection, Environment, State, waiting_for_status, receiving_challenge, status_read,
  challenge_read,
}
use tinch_pp.Connection.States.{calculate_digest, send_reply}
use tinch_pp.Connection.Steps.{checked_read}
use tinch_pp.Connection.Messages.{Frame}
use tinch_pp.Connection.Callbacks.{IsMd5, reads-status_and_challenge}
use tinch_pp.Connection.Fronts.{waits_with, read-joins, reads-part, reads-status_and_part}
use tinch_pp.Connection.Splits.{split}
use tinch_pp.Connection.Reads.{amount-pos, reads_from-steps, a_reads-steps}
use tinch_pp.Connection.Pairs.{PairEvent, a_reads, amount}
use tinch_pp.Connection.Phases.{Phase, challenge_sent, both_sent, reply_queued}
use tinch_pp.Connection.Moves

-- The names fit their messages, the challenges are of 32 bits, and a digest is of 16 bytes.
module _ (sp : Spirit) (env : Environment) (own_a own_b first_a first_b : ℕ)
    (rest_a rest_b : MsgSeq) (known : Option MsgSeq) (sums : IsMd5 env.md5)
    (fits_a : length (first_a ∷ rest_a) + 7 < 2 ^ 16)
    (fits_b : length (first_b ∷ rest_b) + 11 < 2 ^ 16) (dword_a : own_a < 2 ^ 32)
    (dword_b : own_b < 2 ^ 32) where
  abbrev env_a : Environment
  env_a =
      Moves.env_a sp env own_a own_b first_a first_b rest_a rest_b known sums fits_a fits_b dword_a
        dword_b

  abbrev env_b : Environment
  env_b =
      Moves.env_b sp env own_a own_b first_a first_b rest_a rest_b known sums fits_a fits_b dword_a
        dword_b

  abbrev Parts : Phase → MsgSeq → MsgSeq → Type 0
  Parts =
      Moves.Parts sp env own_a own_b first_a first_b rest_a rest_b known sums fits_a fits_b dword_a
        dword_b

  abbrev Move : PairEvent → Phase → MsgSeq → MsgSeq → Type 0
  Move =
      Moves.Move sp env own_a own_b first_a first_b rest_a rest_b known sums fits_a fits_b dword_a
        dword_b

  abbrev sent : MsgSeq
  sent =
      Moves.sent sp env own_a own_b first_a first_b rest_a rest_b known sums fits_a fits_b dword_a
        dword_b

  abbrev status : MsgSeq
  status =
      Moves.status sp env own_a own_b first_a first_b rest_a rest_b known sums fits_a fits_b dword_a
        dword_b

  abbrev challenge : MsgSeq
  challenge =
      Moves.challenge sp env own_a own_b first_a first_b rest_a rest_b known sums fits_a fits_b
        dword_a dword_b

  abbrev a_in : State → MsgSeq → Connection
  a_in =
      Moves.a_in sp env own_a own_b first_a first_b rest_a rest_b known sums fits_a fits_b dword_a
        dword_b

  abbrev a_of : Phase → Connection
  a_of =
      Moves.a_of sp env own_a own_b first_a first_b rest_a rest_b known sums fits_a fits_b dword_a
        dword_b

  -- The challenge is behind the status: a read may take all of the status and a part of the challenge,
  -- or all of both.
  behind-Move :
      (n : ℕ) (f r y z : MsgSeq)
      → Parts both_sent f r
      → challenge ≡ y ++ z
      → take (amount n) (r ++ challenge) ≡ r ++ y
      → drop (amount n) (r ++ challenge) ≡ z
      → Move (a_reads n) both_sent f r
  unfolding send_reply calculate_digest
  behind-Move n f r y [] (e, l) q t u =
      let k = a_in waiting_for_status sent in
      let s =
        reads_from-steps sp env_a n status_read f (r ++ challenge) k (a_of reply_queued)
          (omega (arith, l refl, length-append r challenge))
          (ap (λ x. checked_read sp env_a false x (waits_with status_read f k))
              (t ∙ ap (λ x. r ++ x) (sym (append-nil y) ∙ sym q))
            ∙ read-joins sp env_a status_read f (r ++ challenge) k
            ∙ ap (λ x. checked_read sp env_a false x (waits_with status_read [] k))
                (sym (append_assoc f r challenge) ∙ ap (λ x. x ++ challenge) e)
            ∙ reads-status_and_challenge sp env_a sums own_b first_b rest_b k dword_b fits_b)
        ∙ ap (λ x. some (a_of reply_queued, x)) u in
      (
        reply_queued,
        [],
        [],
        (refl, λ x. absurd (cc x)),
        a_reads-steps sp env_a env_b n _ _ _ _ _ _ s,
        inr (omega (arith, l refl)),
      )
  behind-Move n f r y (z ∷ zs) (e, l) q t u =
      let k = a_in waiting_for_status sent in
      let k' = a_in receiving_challenge sent in
      let s =
        reads_from-steps sp env_a n status_read f (r ++ challenge) k
          (waits_with challenge_read y k') (omega (arith, l refl, length-append r challenge))
          (ap (λ x. checked_read sp env_a false x (waits_with status_read f k)) t
            ∙ read-joins sp env_a status_read f (r ++ y) k
            ∙ ap (λ x. checked_read sp env_a false x (waits_with status_read [] k))
                (sym (append_assoc f r y) ∙ ap (λ x. x ++ y) e)
            ∙ reads-status_and_part sp env_a y (z ∷ zs) k refl
                (subst (Frame sp) q (
                  Moves.challenge-Frame sp env own_a own_b first_a first_b rest_a rest_b known sums
                    fits_a fits_b dword_a dword_b))
                (omega arith))
        ∙ ap (λ x. some (waits_with challenge_read y k', x)) u in
      (
        challenge_sent,
        y,
        z ∷ zs,
        (sym q, λ _. omega arith),
        a_reads-steps sp env_a env_b n _ _ _ _ _ _ s,
        inr (omega (arith, l refl, ap length q, length-append y (z ∷ zs))),
      )

  pub both-Move : (n : ℕ) (f r : MsgSeq) → Parts both_sent f r → Move (a_reads n) both_sent f r
  both-Move n f r (e, l) = elim (split (amount n) r challenge (l refl) (amount-pos n)) [
    | inl (d, r', q, a, b, t, u) ↦
        let k = a_in waiting_for_status sent in
        let whole : (f ++ d) ++ r' ≡ status = append_assoc f d r' ∙ ap (λ s. f ++ s) (sym q) ∙ e in
        let s =
          reads_from-steps sp env_a n status_read f (r ++ challenge) k
            (waits_with status_read (f ++ d) k) (omega (arith, l refl, length-append r challenge))
            (ap (λ x. checked_read sp env_a false x (waits_with status_read f k)) t
              ∙ reads-part sp env_a status_read f d r' k
                  (subst (Frame sp) (sym whole) (
                    Moves.status-Frame sp env own_a own_b first_a first_b rest_a rest_b known sums
                      fits_a fits_b dword_a dword_b))
                  b)
          ∙ ap (λ x. some (waits_with status_read (f ++ d) k, x)) u in
        (
          both_sent,
          f ++ d,
          r',
          (whole, λ _. b),
          a_reads-steps sp env_a env_b n _ _ _ _ _ _ s,
          inr (omega (arith, ap length q, length-append d r', a)),
        )
    | inr (y, z, q, t, u) ↦ behind-Move n f r y z (e, l) q t u
  ]
