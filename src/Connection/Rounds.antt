-- ===== src/Connection/Rounds.antt =====
-- Two nodes of the program, with the same cookie, connect to each other whatever the order of events
-- and whatever part of the bytes each read delivers (impl/node_connection_state.cpp on both sides).
use tinch_pp.Prelude.{
  ℕ, ◌⊎◌, inl, inr, ◌+◌, ◌^◌, ◌≤◌, ◌<◌, ◌≡◌, ◌∙◌, refl, ap, subst, List, [], ◌∷◌, ◌++◌, Option,
  none, some, length, true, false, All, arith,
}
use tinch_pp.Types.{MsgSeq}
use tinch_pp.Spirit.{Spirit}
use tinch_pp.Connection.{new_connection, Environment, connected, msg_received}
use tinch_pp.Connection.States.{call_written, make_transition_to_connected, handshake_complete}
use tinch_pp.Connection.Steps.{checked_write, start_handshake_as_A, start_handshake_as_B}
use tinch_pp.Connection.Callbacks.{IsMd5}
use tinch_pp.Connection.Fronts.{Frame-pos}
use tinch_pp.Connection.Pairs.{
  Pair, PairEvent, a_writes, a_reads, b_writes, b_reads, pair_step, pair_run, writes_to, reads_from,
}
use tinch_pp.Connection.Phases.{
  Phase, name_queued, name_sent, status_queued, status_sent, challenge_queued, challenge_sent,
  both_sent, reply_queued, ack_queued, ack_sent, finished, helps, Completion, Occurs, IsRound,
  all_rounds, stuck_finished,
}
use tinch_pp.Connection.Overlaps.{both-Move}
use tinch_pp.Connection.Moves.{
  place, Parts, remaining, Move, idle, name-Move, status-Move, challenge-Move, reply-Move, ack-Move,
  sent, status, challenge, reply, ack, name-Frame, status-Frame, challenge-Frame, reply-Frame,
  ack-Frame,
}

-- Both sides are through with the handshake.
pub record HasMet (name_a : MsgSeq) (l : Pair) : Type 0 where
  pub a_connected : l.a.state ≡ connected
  pub b_connected : l.b.state ≡ connected
  pub a_signals : l.a.handshake_success ≡ true ∷ []
  pub b_signals : l.b.handshake_success ≡ true ∷ []
  pub a_reads_on : l.a.reading ≡ some (msg_received, true)
  pub b_reads_on : l.b.reading ≡ some (msg_received, true)
  pub b_knows : l.b.peer_name ≡ some name_a
  pub nothing_left : (l.to_a ≡ []) × (l.to_b ≡ [])

-- Success is signalled once at most, failure never, and the first side is not connected alone.
pub record IsCareful (l : Pair) : Type 0 where
  pub a_signals : (l.a.handshake_success ≡ []) ⊎ (l.a.handshake_success ≡ true ∷ [])
  pub b_signals : (l.b.handshake_success ≡ []) ⊎ (l.b.handshake_success ≡ true ∷ [])
  pub not_alone : l.a.state ≡ connected → l.b.state ≡ connected

-- The names fit their messages, the challenges are of 32 bits, and a digest is of 16 bytes.
module _ (sp : Spirit) (env : Environment) (own_a own_b first_a first_b : ℕ)
    (rest_a rest_b : MsgSeq) (known : Option MsgSeq) (sums : IsMd5 env.md5)
    (fits_a : length (first_a ∷ rest_a) + 7 < 2 ^ 16)
    (fits_b : length (first_b ∷ rest_b) + 11 < 2 ^ 16) (dword_a : own_a < 2 ^ 32)
    (dword_b : own_b < 2 ^ 32) where
  abbrev env_a : Environment
  env_a = record env { name = first_a ∷ rest_a }

  abbrev env_b : Environment
  env_b = record env { name = first_b ∷ rest_b }

  abbrev at : Phase → MsgSeq → MsgSeq → Pair
  at =
      place sp env own_a own_b first_a first_b rest_a rest_b known sums fits_a fits_b dword_a
        dword_b

  abbrev left : Phase → MsgSeq → ℕ
  left =
      remaining sp env own_a own_b first_a first_b rest_a rest_b known sums fits_a fits_b dword_a
        dword_b

  abbrev Split : Phase → MsgSeq → MsgSeq → Type 0
  Split =
      Parts sp env own_a own_b first_a first_b rest_a rest_b known sums fits_a fits_b dword_a
        dword_b

  move :
      (e : PairEvent) (p : Phase) (f r : MsgSeq)
      → Split p f r
      → Move sp env own_a own_b first_a first_b rest_a rest_b known sums fits_a fits_b dword_a
          dword_b e p f r
  unfolding pair_step writes_to reads_from checked_write call_written make_transition_to_connected
      handshake_complete
  move a_writes name_queued f r v = (
    name_sent,
    [],
    sent sp env own_a own_b first_a first_b rest_a rest_b known sums fits_a fits_b dword_a dword_b,
    (
      refl,
      λ _.
          Frame-pos sp env
            (sent sp env own_a own_b first_a first_b rest_a rest_b known sums fits_a fits_b dword_a
              dword_b)
            (name-Frame sp env own_a own_b first_a first_b rest_a rest_b known sums fits_a fits_b
              dword_a dword_b),
    ),
    refl,
    inr (omega arith),
  )
  move b_writes status_queued f r v = (
    status_sent,
    [],
    status sp env own_a own_b first_a first_b rest_a rest_b known sums fits_a fits_b dword_a
        dword_b,
    (
      refl,
      λ _.
          Frame-pos sp env
            (status sp env own_a own_b first_a first_b rest_a rest_b known sums fits_a fits_b
              dword_a dword_b)
            (status-Frame sp env own_a own_b first_a first_b rest_a rest_b known sums fits_a fits_b
              dword_a dword_b),
    ),
    refl,
    inr (omega arith),
  )
  move b_writes status_sent f r v = (both_sent, f, r, v, refl, inr (omega arith))
  move b_writes challenge_queued f r v = (
    challenge_sent,
    [],
    challenge sp env own_a own_b first_a first_b rest_a rest_b known sums fits_a fits_b dword_a
        dword_b,
    (
      refl,
      λ _.
          Frame-pos sp env
            (challenge sp env own_a own_b first_a first_b rest_a rest_b known sums fits_a fits_b
              dword_a dword_b)
            (challenge-Frame sp env own_a own_b first_a first_b rest_a rest_b known sums fits_a
              fits_b dword_a dword_b),
    ),
    refl,
    inr (omega arith),
  )
  move a_writes reply_queued f r v = (
    Phase.reply_sent,
    [],
    reply sp env own_a own_b first_a first_b rest_a rest_b known sums fits_a fits_b dword_a dword_b,
    (
      refl,
      λ _.
          Frame-pos sp env
            (reply sp env own_a own_b first_a first_b rest_a rest_b known sums fits_a fits_b dword_a
              dword_b)
            (reply-Frame sp env own_a own_b first_a first_b rest_a rest_b known sums fits_a fits_b
              dword_a dword_b),
    ),
    refl,
    inr (omega arith),
  )
  move b_writes ack_queued f r v = (
    ack_sent,
    [],
    ack sp env own_a own_b first_a first_b rest_a rest_b known sums fits_a fits_b dword_a dword_b,
    (
      refl,
      λ _.
          Frame-pos sp env
            (ack sp env own_a own_b first_a first_b rest_a rest_b known sums fits_a fits_b dword_a
              dword_b)
            (ack-Frame sp env own_a own_b first_a first_b rest_a rest_b known sums fits_a fits_b
              dword_a dword_b),
    ),
    refl,
    inr (omega arith),
  )
  move (b_reads n) name_sent f r v =
      name-Move sp env own_a own_b first_a first_b rest_a rest_b known sums fits_a fits_b dword_a
        dword_b n f r v
  move (a_reads n) status_sent f r v =
      status-Move sp env own_a own_b first_a first_b rest_a rest_b known sums fits_a fits_b dword_a
        dword_b n f r v
  move (a_reads n) both_sent f r v =
      both-Move sp env own_a own_b first_a first_b rest_a rest_b known sums fits_a fits_b dword_a
        dword_b n f r v
  move (a_reads n) challenge_sent f r v =
      challenge-Move sp env own_a own_b first_a first_b rest_a rest_b known sums fits_a fits_b
        dword_a dword_b n f r v
  move (b_reads n) Phase.reply_sent f r v =
      reply-Move sp env own_a own_b first_a first_b rest_a rest_b known sums fits_a fits_b dword_a
        dword_b n f r v
  move (a_reads n) ack_sent f r v =
      ack-Move sp env own_a own_b first_a first_b rest_a rest_b known sums fits_a fits_b dword_a
        dword_b n f r v
  move e p f r v =
      idle sp env own_a own_b first_a first_b rest_a rest_b known sums fits_a fits_b dword_a dword_b
        e p f r v refl refl

  pair_run-cons :
      (e : PairEvent) (es : List PairEvent) (l l' : Pair)
      → pair_step sp env_a env_b e l ≡ some l'
      → pair_run sp env_a env_b (e ∷ es) l ≡ pair_run sp env_a env_b es l'
  unfolding pair_run
  pair_run-cons e es l l' h =
      ap (λ o. elim o as (λ _. Option Pair) [ none ↦ none | some k ↦ pair_run sp env_a env_b es k ])
        h

  pair_run-append :
      (es fs : List PairEvent) (l l' : Pair)
      → pair_run sp env_a env_b es l ≡ some l'
      → pair_run sp env_a env_b (es ++ fs) l ≡ pair_run sp env_a env_b fs l'
  unfolding pair_run
  pair_run-append [] fs l l' h =
      ap (λ o. elim o as (λ _. Option Pair) [ none ↦ none | some k ↦ pair_run sp env_a env_b fs k ])
        h
  pair_run-append (e ∷ es) fs l l' h = grind (arith, pair_run-append es fs)

  -- Some events get further, or none of their completions helps.
  abbrev Moves : List PairEvent → Phase → MsgSeq → MsgSeq → Type 0
  Moves es p f r =
      (p' : Phase) × (f' : MsgSeq) × (r' : MsgSeq) × Split p' f' r'
      × (pair_run sp env_a env_b es (at p f r) ≡ some (at p' f' r'))
      × (((p' ≡ p) × (left p' r' ≡ left p r) × ((k : Completion) → Occurs k es → helps k p ≡ false))
          ⊎ (left p' r' < left p r))

  moves : (es : List PairEvent) (p : Phase) (f r : MsgSeq) → Split p f r → Moves es p f r
  moves [] p f r v = (p, f, r, v, unfold pair_run in refl, inl (refl, refl, λ k o. elim o [ ]))
  moves (e ∷ es) p f r v =
      let (p1, f1, r1, v1, s1, d1) = move e p f r v in
      let (p2, f2, r2, v2, s2, d2) = moves es p1 f1 r1 v1 in
      (
        p2,
        f2,
        r2,
        v2,
        pair_run-cons e es (at p f r) (at p1 f1 r1) s1 ∙ s2,
        elim d1 [
          | inl (same, equal, h) ↦ elim d2 [
            | inl (same', equal', nothing) ↦ inl (
              same' ∙ same,
              equal' ∙ equal,
              λ k o. elim o [
                | inl this ↦ subst (λ c. helps c p ≡ false) this h
                | inr later ↦ subst (λ q. helps k q ≡ false) same (nothing k later)
              ],
            )
            | inr less ↦ inr (omega (arith, equal, less))
          ]
          | inr less ↦ elim d2 [
            | inl (same', equal', nothing) ↦ inr (omega (arith, equal', less))
            | inr less' ↦ inr (omega (arith, less, less'))
          ]
        ],
      )

  -- Where nothing is left, the handshake is over, and the other way round.
  none_left : (p : Phase) (f r : MsgSeq) → Split p f r → left p r ≤ 0 → at p f r ≡ at finished [] []
  none_left finished f r v l = refl
  none_left name_sent f r v l = absurd (omega (arith, l, v.1 refl))
  none_left status_sent f r v l = absurd (omega (arith, l, v.1 refl))
  none_left both_sent f r v l = absurd (omega (arith, l, v.1 refl))
  none_left challenge_sent f r v l = absurd (omega (arith, l, v.1 refl))
  none_left Phase.reply_sent f r v l = absurd (omega (arith, l, v.1 refl))
  none_left ack_sent f r v l = absurd (omega (arith, l, v.1 refl))
  none_left p f r v l = absurd (omega (arith, l))

  rounds_finish :
      (rounds : List (List PairEvent)) (p : Phase) (f r : MsgSeq)
      → Split p f r
      → All IsRound rounds
      → left p r ≤ length rounds
      → pair_run sp env_a env_b (all_rounds rounds) (at p f r) ≡ some (at finished [] [])
  unfolding all_rounds
  rounds_finish [] p f r v h l = unfold pair_run in ap some (none_left p f r v l)
  rounds_finish (round ∷ rounds) p f r v (h, hs) l =
      let (p', f', r', v', s, d) = moves round p f r v in
      pair_run-append round (all_rounds rounds) (at p f r) (at p' f' r') s
      ∙ rounds_finish rounds p' f' r' v' hs (elim d [
        | inl (same, equal, nothing) ↦
            let over : p' ≡ finished = same ∙ stuck_finished p (λ k. nothing k (h k)) in
            omega (arith, ap (λ q. left q r') over)
        | inr less ↦ omega (arith, less, l)
      ])

  -- One side starts the handshake, the other one waits for it.
  abbrev pub start : Pair
  start = record {
    a = start_handshake_as_A sp env_a own_a (new_connection known);
    b = start_handshake_as_B sp env_b own_b (new_connection none);
    to_a = [];
    to_b = [];
  }

  start-at : start ≡ at name_queued [] []
  unfolding start_handshake_as_A start_handshake_as_B
  start-at = refl

  at-finished : HasMet (first_a ∷ rest_a) (at finished [] [])
  at-finished = record {
    a_connected = refl;
    b_connected = refl;
    a_signals = refl;
    b_signals = refl;
    a_reads_on = refl;
    b_reads_on = refl;
    b_knows = refl;
    nothing_left = (refl, refl);
  }

  -- Two nodes with the same cookie, whose names are not empty and fit their messages, with challenges
  -- of 32 bits and digests of 16 bytes, connect under every fair schedule, where a read delivers any
  -- number of the bytes that have arrived, from one to 128: if the completions come in as many rounds
  -- as there are writes and bytes in the handshake, and in each round each side completes a write and a
  -- read, if it has one in progress, in any order, then every step ends normally, and at the end both
  -- sides are connected, have signalled success once, and read on as connected nodes; the second knows
  -- the name of the first, and no byte is left on the way.
  pub nodes_connect :
      (rounds : List (List PairEvent))
      → All IsRound rounds
      → left name_queued [] ≤ length rounds
      → (l : Pair) × (pair_run sp env_a env_b (all_rounds rounds) start ≡ some l)
        × HasMet (first_a ∷ rest_a) l
  nodes_connect rounds h l = (
    at finished [] [],
    ap (pair_run sp env_a env_b (all_rounds rounds)) start-at
        ∙ rounds_finish rounds name_queued [] [] (refl, λ x. absurd (cc x)) h l,
    at-finished,
  )
