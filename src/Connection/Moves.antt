-- ===== src/Connection/Moves.antt =====
-- What each event does to two nodes of the program in each phase of their handshake
-- (impl/node_connection_state.cpp and impl/node_async_tcp_ip.cpp on both sides).
use tinch_pp.Prelude.{
  ℕ, ◌⊎◌, inl, inr, ◌+◌, ◌^◌, ◌<◌, ◌≡◌, refl, [], ◌∷◌, ◌++◌, Option, none, some, length, false,
  arith,
}
use tinch_pp.Types.{MsgSeq}
use tinch_pp.Spirit.{Spirit}
use tinch_pp.Connection.{
  Connection, new_connection, Environment, State, waiting_for_status, receiving_challenge,
  receiving_challenge_ack, waiting_for_challenge_reply, name_read, status_read, challenge_read,
  challenge_ack_read, reply_received,
}
use tinch_pp.Connection.States.{
  ok, calculate_digest, to_sending_status, send_reply, send_ack, make_transition_to_connected,
  handshake_complete,
}
use tinch_pp.Connection.Messages.{
  Frame, send_name-Frame, receive_status_g-Frame, send_challenge_g-Frame, challenge_reply-Frame,
  send_challenge_ack_g-Frame,
}
use tinch_pp.Connection.Callbacks.{
  IsMd5, length-calculate_digest, reads-name, reads-reply, reads-status, reads-challenge, reads-ack,
}
use tinch_pp.Connection.Reads.{reads_alone, a_reads-steps, b_reads-steps}
use tinch_pp.Connection.Pairs.{Pair, PairEvent, a_reads, b_reads, pair_step}
use tinch_pp.Connection.Phases.{
  Phase, name_sent, status_queued, status_sent, challenge_queued, challenge_sent, reply_queued,
  ack_queued, ack_sent, finished, helps, completion,
}
use tinch_pp.Connection.Meeting.{
  pair_at, AreParts, left, name_msg, status_msg, challenge_msg, reply_msg, ack_msg, base_a, base_b,
  a_at, b_at,
}

-- The names fit their messages, the challenges are of 32 bits, and a digest is of 16 bytes.
module _ (sp : Spirit) (env : Environment) (own_a own_b first_a first_b : ℕ)
    (rest_a rest_b : MsgSeq) (known : Option MsgSeq) (sums : IsMd5 env.md5)
    (fits_a : length (first_a ∷ rest_a) + 7 < 2 ^ 16)
    (fits_b : length (first_b ∷ rest_b) + 11 < 2 ^ 16) (dword_a : own_a < 2 ^ 32)
    (dword_b : own_b < 2 ^ 32) where
  abbrev pub env_a : Environment
  env_a = record env { name = first_a ∷ rest_a }

  abbrev pub env_b : Environment
  env_b = record env { name = first_b ∷ rest_b }

  abbrev pub place : Phase → MsgSeq → MsgSeq → Pair
  place = pair_at sp env own_a own_b first_a first_b rest_a rest_b known

  abbrev pub Parts : Phase → MsgSeq → MsgSeq → Type 0
  Parts = AreParts sp env own_a own_b first_a first_b rest_a rest_b known

  abbrev pub remaining : Phase → MsgSeq → ℕ
  remaining = left sp env own_a own_b first_a first_b rest_a rest_b known

  abbrev pub sent : MsgSeq
  sent = name_msg sp env own_a own_b first_a first_b rest_a rest_b known

  abbrev pub status : MsgSeq
  status = status_msg sp env own_a own_b first_a first_b rest_a rest_b known

  abbrev pub challenge : MsgSeq
  challenge = challenge_msg sp env own_a own_b first_a first_b rest_a rest_b known

  abbrev pub reply : MsgSeq
  reply = reply_msg sp env own_a own_b first_a first_b rest_a rest_b known

  abbrev pub ack : MsgSeq
  ack = ack_msg sp env own_a own_b first_a first_b rest_a rest_b known

  -- The connections that read, without the read itself.
  abbrev pub a_in : State → MsgSeq → Connection
  a_in state written = record (base_a sp env own_a own_b first_a first_b rest_a rest_b known) {
    state = state;
    written = written;
  }

  abbrev b_in : State → MsgSeq → Connection
  b_in state written = record (base_b sp env own_a own_b first_a first_b rest_a rest_b known) {
    state = state;
    written = written;
  }

  abbrev unnamed : Connection
  unnamed = record (new_connection none) { own_challenge = own_b }

  abbrev pub a_of : Phase → Connection
  a_of = a_at sp env own_a own_b first_a first_b rest_a rest_b known

  abbrev b_of : Phase → Connection
  b_of = b_at sp env own_a own_b first_a first_b rest_a rest_b known

  pub name-Frame : Frame sp sent
  name-Frame = send_name-Frame sp (first_a ∷ rest_a) fits_a

  pub status-Frame : Frame sp status
  status-Frame = receive_status_g-Frame sp ok (omega arith)

  pub challenge-Frame : Frame sp challenge
  challenge-Frame = send_challenge_g-Frame sp own_b (first_b ∷ rest_b) fits_b

  pub reply-Frame : Frame sp reply
  reply-Frame =
      challenge_reply-Frame sp
        (record { challenge = own_a; digest = calculate_digest sp env own_b env.cookie })
        (length-calculate_digest sp env sums own_b env.cookie)

  pub ack-Frame : Frame sp ack
  ack-Frame =
      send_challenge_ack_g-Frame sp (calculate_digest sp env own_a env.cookie)
        (length-calculate_digest sp env sums own_a env.cookie)

  -- An event leads to a phase and its parts; it does nothing, and could not help, or there is less left.
  abbrev pub Move : PairEvent → Phase → MsgSeq → MsgSeq → Type 0
  Move e p front rest =
      (p' : Phase) × (front' : MsgSeq) × (rest' : MsgSeq) × Parts p' front' rest'
      × (pair_step sp env_a env_b e (place p front rest) ≡ some (place p' front' rest'))
      × (((p' ≡ p) × (remaining p' rest' ≡ remaining p rest) × (helps (completion e) p ≡ false))
          ⊎ (remaining p' rest' < remaining p rest))

  -- Nothing happens.
  pub idle :
      (e : PairEvent) (p : Phase) (front rest : MsgSeq)
      → Parts p front rest
      → pair_step sp env_a env_b e (place p front rest) ≡ some (place p front rest)
      → helps (completion e) p ≡ false
      → Move e p front rest
  idle e p front rest v s h = (p, front, rest, v, s, inl (refl, refl, h))

  pub name-Move : (n : ℕ) (f r : MsgSeq) → Parts name_sent f r → Move (b_reads n) name_sent f r
  unfolding to_sending_status
  name-Move n f r (e, l) =
      elim (reads_alone sp env_b n name_read sent f r unnamed (b_of status_queued) name-Frame e
        (l refl) (reads-name sp env_b sums first_a rest_a unnamed fits_a)) [
          | inl (d, r', w, l', less, s) ↦ (
            name_sent,
            f ++ d,
            r',
            (w, λ _. l'),
            b_reads-steps sp env_a env_b n _ _ _ _ _ _ s,
            inr (omega (arith, less)),
          )
          | inr s ↦ (
            status_queued,
            [],
            [],
            (refl, λ x. absurd (cc x)),
            b_reads-steps sp env_a env_b n _ _ _ _ _ _ s,
            inr (omega (arith, l refl)),
          )
        ]

  pub status-Move :
      (n : ℕ) (f r : MsgSeq) → Parts status_sent f r → Move (a_reads n) status_sent f r
  status-Move n f r (e, l) =
      elim (reads_alone sp env_a n status_read status f r (a_in waiting_for_status sent)
        (a_of challenge_queued) status-Frame e (l refl)
        (reads-status sp env_a sums (a_in waiting_for_status sent) refl)) [
          | inl (d, r', w, l', less, s) ↦ (
            status_sent,
            f ++ d,
            r',
            (w, λ _. l'),
            a_reads-steps sp env_a env_b n _ _ _ _ _ _ s,
            inr (omega (arith, less)),
          )
          | inr s ↦ (
            challenge_queued,
            [],
            [],
            (refl, λ x. absurd (cc x)),
            a_reads-steps sp env_a env_b n _ _ _ _ _ _ s,
            inr (omega (arith, l refl)),
          )
        ]

  pub challenge-Move :
      (n : ℕ) (f r : MsgSeq) → Parts challenge_sent f r → Move (a_reads n) challenge_sent f r
  unfolding send_reply calculate_digest
  challenge-Move n f r (e, l) =
      elim (reads_alone sp env_a n challenge_read challenge f r (a_in receiving_challenge sent)
        (a_of reply_queued) challenge-Frame e (l refl)
        (reads-challenge sp env_a sums own_b first_b rest_b (a_in receiving_challenge sent) dword_b
          fits_b)) [
            | inl (d, r', w, l', less, s) ↦ (
              challenge_sent,
              f ++ d,
              r',
              (w, λ _. l'),
              a_reads-steps sp env_a env_b n _ _ _ _ _ _ s,
              inr (omega (arith, less)),
            )
            | inr s ↦ (
              reply_queued,
              [],
              [],
              (refl, λ x. absurd (cc x)),
              a_reads-steps sp env_a env_b n _ _ _ _ _ _ s,
              inr (omega (arith, l refl)),
            )
          ]

  pub reply-Move :
      (n : ℕ) (f r : MsgSeq) → Parts Phase.reply_sent f r → Move (b_reads n) Phase.reply_sent f r
  unfolding send_ack calculate_digest
  reply-Move n f r (e, l) =
      let k = b_in waiting_for_challenge_reply (status ++ challenge) in
      elim (reads_alone sp env_b n reply_received reply f r k (b_of ack_queued) reply-Frame e
        (l refl) (reads-reply sp env_b sums own_a k dword_a)) [
          | inl (d, r', w, l', less, s) ↦ (
            Phase.reply_sent,
            f ++ d,
            r',
            (w, λ _. l'),
            b_reads-steps sp env_a env_b n _ _ _ _ _ _ s,
            inr (omega (arith, less)),
          )
          | inr s ↦ (
            ack_queued,
            [],
            [],
            (refl, λ x. absurd (cc x)),
            b_reads-steps sp env_a env_b n _ _ _ _ _ _ s,
            inr (omega (arith, l refl)),
          )
        ]

  pub ack-Move : (n : ℕ) (f r : MsgSeq) → Parts ack_sent f r → Move (a_reads n) ack_sent f r
  unfolding make_transition_to_connected handshake_complete calculate_digest
  ack-Move n f r (e, l) =
      let k = a_in receiving_challenge_ack (sent ++ reply) in
      elim (reads_alone sp env_a n challenge_ack_read ack f r k (a_of finished) ack-Frame e (l refl)
        (reads-ack sp env_a sums k)) [
          | inl (d, r', w, l', less, s) ↦ (
            ack_sent,
            f ++ d,
            r',
            (w, λ _. l'),
            a_reads-steps sp env_a env_b n _ _ _ _ _ _ s,
            inr (omega (arith, less)),
          )
          | inr s ↦ (
            finished,
            [],
            [],
            (refl, λ x. absurd (cc x)),
            a_reads-steps sp env_a env_b n _ _ _ _ _ _ s,
            inr (omega (arith, l refl)),
          )
        ]
