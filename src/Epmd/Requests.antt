-- ===== src/Epmd/Requests.antt =====
-- The frames of the requests of impl/epmd_protocol.h, and the answers of impl/epmd_requestor.cpp.
use tinch_pp.Prelude.{
  ℕ, zero, suc, take, leb, ◌≤◌, ◌+◌, ◌*◌, ◌^◌, ◌<◌, ◌≡◌, true, [], ◌∷◌, ◌++◌, arith, none, some,
  length, nat_beq, if◌then◌else◌, length-append, ap, ◌∙◌, ◌/◌, ◌%◌, sym,
}
use tinch_pp.Types.{MsgSeq}
use tinch_pp.Spirit.{Spirit}
use tinch_pp.Spirit.Laws.{big_word-Reads, bind-some}
use tinch_pp.Epmd.{
  alive2_req_params, alive2_req, alive2_body, port_please2_req, alive2_request,
  port_please2_request, alive2_resp, port2_resp_result, receive_alive_response, receive_port_resp,
  checked_alive, checked_port, value_of, Received,
}

module _ (sp : Spirit) where
  alive2_resp-cons :
      (result a b : ℕ) (rest : MsgSeq)
      → alive2_resp sp (121 ∷ result ∷ a ∷ b ∷ rest)
        ≡ some (record { result = result; creation = a * 256 + b }, rest)
  unfolding alive2_resp
  alive2_resp-cons result a b rest =
      bind-some (sp.byte_lit 121) _ _ (sp.byte_lit-cons 121 121 (result ∷ a ∷ b ∷ rest))
      ∙ bind-some sp.byte_ _ _ (sp.byte_-cons result (a ∷ b ∷ rest))
      ∙ bind-some sp.big_word _ _ (sp.big_word-cons a b rest)

  port2_resp_result-cons :
      (result : ℕ) (rest : MsgSeq)
      → port2_resp_result sp (119 ∷ result ∷ rest) ≡ some (result, rest)
  unfolding port2_resp_result
  port2_resp_result-cons result rest =
      bind-some (sp.byte_lit 119) _ _ (sp.byte_lit-cons 119 119 (result ∷ rest))
      ∙ sp.byte_-cons result rest

  checked_port-cons :
      (result a b : ℕ) (rest : MsgSeq)
      → checked_port sp
          (119 ∷ result ∷ a ∷ b ∷ rest)
          (port2_resp_result sp (119 ∷ result ∷ a ∷ b ∷ rest))
        ≡ (if nat_beq result 0 then some (a * 256 + b) else none)
  checked_port-cons result a b rest = rw (port2_resp_result-cons) (
      ap (λ o. if nat_beq result 0 then value_of sp o else none)
        (bind-some (port2_resp_result sp) (λ _. sp.big_word) _
            (port2_resp_result-cons result (a ∷ b ∷ rest))
          ∙ sp.big_word-cons a b rest))

  framed :
      (n : ℕ) (body : MsgSeq)
      → n < 2 ^ 16
      → length body ≡ n
      → sp.big_word (sp.big_word_g n ++ body) ≡ some (length body, body)
  framed n body h e = (big_word-Reads sp h).at body ∙ ap (λ k. some (k, body)) (sym e)

  length-alive2_body :
      (name : MsgSeq) (port : ℕ)
      → length (alive2_body sp (alive2_req_params name port)) ≡ 13 + length name
  length-alive2_body name port =
      rw
        (
          sp.byte_g_lem, sp.byte_g_lem, sp.byte_g_lem, sp.big_word_g_lem, sp.big_word_g_lem,
          sp.big_word_g_lem, sp.big_word_g_lem, sp.string_g_lem,
        )
        (omega (arith, length-append name ((0 / 256 % 256) ∷ (0 % 256) ∷ [])))

  length-port_body : (name : MsgSeq) → length (sp.byte_g 122 ++ sp.string_g name) ≡ 1 + length name
  length-port_body name = rw (sp.byte_g_lem, sp.string_g_lem) (omega arith)

  -- Each request starts with the number of the bytes that follow, if the name of the node fits the
  -- length field.
  pub requests_framed :
      (name : MsgSeq) (port : ℕ) (answer : Received)
      → 13 + length name < 2 ^ 16
      → ((body : MsgSeq) × ((sp.big_word (alive2_request sp name port true answer).0
              ≡ some (length body, body))
            × (length body ≡ 13 + length name)))
        × ((body : MsgSeq) × ((sp.big_word (port_please2_request sp name true answer).0
                ≡ some (length body, body))
              × (length body ≡ 1 + length name)))
  unfolding alive2_request alive2_req port_please2_request port_please2_req
  requests_framed name port answer h = (
    (
      alive2_body sp (alive2_req_params name port),
      (
        framed (13 + length name) (alive2_body sp (alive2_req_params name port)) h
            (length-alive2_body name port),
        length-alive2_body name port,
      ),
    ),
    (
      sp.byte_g 122 ++ sp.string_g name,
      (
        framed (1 + length name) (sp.byte_g 122 ++ sp.string_g name) (omega (arith, h))
            (length-port_body name),
        length-port_body name,
      ),
    ),
  )

  -- An answer whose first four bytes come in one read gives the number that it carries if its result is 0, and
  -- throws for every other result.
  pub answers_read :
      (result a b : ℕ) (more : MsgSeq)
      → (receive_alive_response sp (some (121 ∷ result ∷ a ∷ b ∷ more))
          ≡ (if nat_beq result 0 then some (a * 256 + b) else none))
        × (receive_port_resp sp (some (119 ∷ result ∷ a ∷ b ∷ more))
            ≡ (if nat_beq result 0 then some (a * 256 + b) else none))
  unfolding receive_alive_response receive_port_resp alive2_resp port2_resp_result
  answers_read result a b more =
      (ap (checked_alive sp) (alive2_resp-cons result a b _), checked_port-cons result a b _)

  -- The number in the third and fourth byte of an answer, where zeros stand for the bytes that are not
  -- delivered.
  abbrev delivered : ℕ → ℕ → ℕ → ℕ
  delivered n a b = (if leb 3 n then a * 256 else 0) + (if leb 4 n then b else 0)

  -- An answer with the result 0 of which the read delivers only a front of at least two bytes: the
  -- request for a registration and the one for a port end normally with the number that the answer
  -- carries, but with zeros for the bytes of the number that were not delivered.
  pub short_answers_accepted :
      (n a b : ℕ) (more : MsgSeq)
      → 2 ≤ n
      → (receive_alive_response sp (some (take n (121 ∷ 0 ∷ a ∷ b ∷ more)))
          ≡ some (delivered n a b))
        × (receive_port_resp sp (some (take n (119 ∷ 0 ∷ a ∷ b ∷ more))) ≡ some (delivered n a b))
  unfolding receive_alive_response receive_port_resp
  short_answers_accepted zero a b more h = absurd (omega (arith, h))
  short_answers_accepted (suc zero) a b more h = absurd (omega (arith, h))
  short_answers_accepted (suc (suc zero)) a b more h =
      (ap (checked_alive sp) (alive2_resp-cons 0 0 0 _), checked_port-cons 0 0 0 _)
  short_answers_accepted (suc (suc (suc zero))) a b more h =
      (ap (checked_alive sp) (alive2_resp-cons 0 a 0 _), checked_port-cons 0 a 0 _)
  short_answers_accepted (suc (suc (suc (suc n)))) a b more h = (
    ap (checked_alive sp) (alive2_resp-cons 0 a b _) ∙ ap some (ground arith),
    checked_port-cons 0 a b _ ∙ ap some (ground arith),
  )
