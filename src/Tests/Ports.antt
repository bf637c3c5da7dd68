-- ===== src/Tests/Ports.antt =====
-- Requests to the port mapper (impl/epmd_requestor.cpp).
use tinch_pp.Prelude.{◌≡◌, arith, true, [], ◌∷◌, some, none, length}
use tinch_pp.Types.{MsgSeq}
use tinch_pp.Spirit.Reference.{reference}
use tinch_pp.Epmd.{alive2_request, port_please2_request, receive_alive_response, receive_port_resp}
use tinch_pp.Epmd.Requests.{requests_framed, short_answers_accepted}

abbrev some_name : MsgSeq
some_name = b'a' ∷ b'b' ∷ []

requests_framed_example :
    ((body : MsgSeq) × ((reference.big_word (alive2_request reference some_name 4000 true none).0
          ≡ some (length body, body))
        × (length body ≡ 15)))
    × ((body : MsgSeq) × ((reference.big_word (port_please2_request reference some_name true none).0
            ≡ some (length body, body))
          × (length body ≡ 3)))
requests_framed_example = requests_framed reference some_name 4000 none (omega arith)

short_answers_accepted_example :
    (receive_alive_response reference (some (121 ∷ 0 ∷ 1 ∷ [])) ≡ some 256)
    × (receive_port_resp reference (some (119 ∷ 0 ∷ 1 ∷ [])) ≡ some 256)
short_answers_accepted_example =
    short_answers_accepted reference 3 1 7 (77 ∷ 0 ∷ 0 ∷ []) (omega arith)
