-- ===== src/Connection/Messages.antt =====
-- The messages of impl/handshake_grammar.h as frames, and a connection that reads them.
use tinch_pp.Prelude.{
  ℕ, ◌+◌, ◌^◌, ◌<◌, ◌≡◌, refl, ap, sym, List, [], ◌∷◌, ◌++◌, some, arith, append-nil, length, map,
  All, length-append,
}
use tinch_pp.Types.{MsgSeq, serializable_string}
use tinch_pp.Spirit.{Spirit}
use tinch_pp.Lexer.{new_lexer, add, read_handshake_size}
use tinch_pp.Lexer.Pieces.{add_all, concat}
use tinch_pp.Lexer.Sizes.{handshake_frame, handshake_reassembles, read_handshake_size-nil}
use tinch_pp.Handshake.{
  ChallengeReplyAttributes, send_challenge_attributes, digest_length, send_name, receive_status_g,
  send_challenge_g, challenge_reply, send_challenge_ack_g,
}

module _ (sp : Spirit) where
  -- The bytes behind the length field.
  abbrev pub Frame : MsgSeq → Type 0
  Frame m = (body : MsgSeq) × (m ≡ handshake_frame sp body) × (length body < 2 ^ 16)

  frame : (n : ℕ) (body : MsgSeq) → length body ≡ n → n < 2 ^ 16 → Frame (sp.big_word_g n ++ body)
  unfolding handshake_frame
  frame n body e h = (body, ap (λ k. sp.big_word_g k ++ body) (sym e), omega arith)

  length-byte_g : (n : ℕ) → length (sp.byte_g n) ≡ 1
  length-byte_g n = rw (sp.byte_g_lem n) refl

  length-big_word_g : (n : ℕ) → length (sp.big_word_g n) ≡ 2
  length-big_word_g n = rw (sp.big_word_g_lem n) refl

  length-big_dword_g : (n : ℕ) → length (sp.big_dword_g n) ≡ 4
  length-big_dword_g n = rw (sp.big_dword_g_lem n) refl

  length-string_g : (s : MsgSeq) → length (sp.string_g s) ≡ length s
  length-string_g s = ap length (sp.string_g_lem s)

  pub send_name-Frame :
      (s : MsgSeq) → length s + 7 < 2 ^ 16 → Frame (send_name sp (serializable_string s))
  unfolding send_name
  send_name-Frame s h =
      frame (length s + 7) _
        (simp (length-append, length-byte_g, length-big_word_g, length-big_dword_g, length-string_g)
          (omega arith))
        h

  pub receive_status_g-Frame :
      (s : MsgSeq) → length s + 1 < 2 ^ 16 → Frame (receive_status_g sp (serializable_string s))
  unfolding receive_status_g
  receive_status_g-Frame s h =
      frame (length s + 1) _ (simp (length-append, length-byte_g, length-string_g) (omega arith)) h

  pub send_challenge_g-Frame :
      (challenge : ℕ) (s : MsgSeq)
      → length s + 11 < 2 ^ 16
      → Frame (send_challenge_g sp (send_challenge_attributes challenge s))
  unfolding send_challenge_g
  send_challenge_g-Frame challenge s h =
      frame (length s + 11) _
        (simp (length-append, length-byte_g, length-big_word_g, length-big_dword_g, length-string_g)
          (omega arith))
        h

  pub challenge_reply-Frame :
      (val : ChallengeReplyAttributes)
      → length val.digest ≡ digest_length
      → Frame (challenge_reply sp val)
  unfolding challenge_reply
  challenge_reply-Frame val h =
      frame (5 + digest_length) _
        (simp (length-append, length-byte_g, length-big_dword_g, length-string_g, h) (omega arith))
        (omega arith)

  pub send_challenge_ack_g-Frame :
      (digest : MsgSeq) → length digest ≡ digest_length → Frame (send_challenge_ack_g sp digest)
  unfolding send_challenge_ack_g
  send_challenge_ack_g-Frame digest h =
      frame (1 + digest_length) _
        (simp (length-append, length-byte_g, length-string_g, h) (omega arith)) (omega arith)

  add-frames :
      (bodies : List MsgSeq)
      → All (λ b. length b < 2 ^ 16) bodies
      → add (read_handshake_size sp) new_lexer (concat (map (handshake_frame sp) bodies))
        ≡ some (record { incomplete = []; msgs = map (handshake_frame sp) bodies })
  unfolding add_all concat
  add-frames bodies h =
      let s : MsgSeq = concat (map (handshake_frame sp) bodies) in
      let e =
        handshake_reassembles sp bodies (s ∷ []) [] h
          (λ n r. absurd (cc (r, read_handshake_size-nil sp))) refl in
      ground (arith, e)

  -- A lexer with nothing pending, and one message or two.
  pub add-Frame :
      (m : MsgSeq)
      → Frame m
      → add (read_handshake_size sp) new_lexer m ≡ some (record { incomplete = []; msgs = m ∷ [] })
  add-Frame m (body, e, h) =
      rw e (unfold concat in rw append-nil at (add-frames (body ∷ []) (h, tt)))

  pub add-Frame_append :
      (m m' : MsgSeq)
      → Frame m
      → Frame m'
      → add (read_handshake_size sp) new_lexer (m ++ m')
        ≡ some (record { incomplete = []; msgs = m ∷ m' ∷ [] })
  add-Frame_append m m' (body, e, h) (body', e', h') =
      rw (e, e') (unfold concat in rw append-nil at (add-frames (body ∷ body' ∷ []) (h, (h', tt))))
