-- ===== src/Tests/Messages.antt =====
-- Terms and handshake messages as bytes (impl/erlang_value_types.cpp, impl/handshake_grammar.h).
use tinch_pp.Prelude.{◌≡◌, arith, [], ◌∷◌, some, replicate}
use tinch_pp.Types.{MsgSeq, serializable_string}
use tinch_pp.Spirit.Reference.{reference}
use tinch_pp.Values.{Term, count_terms, int_, atom, e_tuple, nil, cons}
use tinch_pp.Values.RoundTrip.{Fits, fits_int, fits_atom, fits_tuple, all_nil, all_cons}
use tinch_pp.Handshake.{send_name_p, send_name, capabilities, supported_version}
use tinch_pp.Handshake.RoundTrip.{send_name_p-send_name}

abbrev ok : MsgSeq
ok = b'o' ∷ b'k' ∷ []

-- {ok, 300}
abbrev ok_tuple : Term
ok_tuple = e_tuple (cons (atom ok) (cons (int_ 300) nil))

ok_tuple-Fits : Fits ok_tuple
ok_tuple-Fits =
    fits_tuple {contained = cons (atom ok) (cons (int_ 300) nil)}
      (unfold count_terms in omega arith)
      (all_cons (fits_atom (omega arith)) (all_cons (fits_int (omega arith)) all_nil))

abbrev digest_of_zeros : MsgSeq
digest_of_zeros = replicate 16 0

send_name_p-send_name_example :
    send_name_p reference (send_name reference (serializable_string ok))
    ≡ some (record { version0 = supported_version; version1 = capabilities; name = ok }, [])
send_name_p-send_name_example = send_name_p-send_name reference b'o' (b'k' ∷ []) (omega arith)
