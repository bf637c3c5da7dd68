-- ===== src/Tests/Terms.antt =====
-- Terms of a few bytes (impl/erl_any.cpp, tinch_pp/erl_list.h, impl/rpc.cpp).
use tinch_pp.Prelude.{◌≡◌, ◌++◌, arith, false, [], ◌∷◌, some, none}
use tinch_pp.Types.{serializable_string}
use tinch_pp.Spirit.Reference.{reference}
use tinch_pp.Terms.{tag_nil_ext, string_ext_g, list_head_g}
use tinch_pp.Values.{
  Term, int_, atom, e_tuple, list, nil, cons, count_terms, serialize, serialize_all,
}
use tinch_pp.Mailbox.{message}
use tinch_pp.Wildcards.{any_match}
use tinch_pp.Wildcards.Matching.{Listless, plain_int, plain_atom, plain_tuple, no_more, one_more}
use tinch_pp.Wildcards.Takes.{any_match-leaves_tail}
use tinch_pp.Lists.{serialize_ints, assign_ints}
use tinch_pp.Lists.Packing.{assign_ints-packed}
use tinch_pp.Rpc.{rex, reply_part, receive_rpc_reply}
use tinch_pp.Rpc.Replies.{receive_rpc_reply-serialize}

-- {ok, {300}}
abbrev a_term : Term
a_term = e_tuple (cons (atom (b'o' ∷ b'k' ∷ [])) (cons (e_tuple (cons (int_ 300) nil)) nil))

a_term-Listless : Listless a_term
unfolding count_terms
a_term-Listless = plain_tuple (omega arith) (
    one_more (plain_atom (omega arith))
      (one_more (plain_tuple (omega arith) (one_more (plain_int (omega arith)) no_more)) no_more))

any_match-leaves_tail_example :
    (any_match reference (serialize reference (list (cons (int_ 3) nil)) ++ (7 ∷ []))
      ≡ some (
        list_head_g reference 1 ++ serialize_all reference (cons (int_ 3) nil),
        tag_nil_ext ∷ 7 ∷ [],
      ))
    × (any_match reference (tag_nil_ext ∷ 7 ∷ []) ≡ none)
unfolding count_terms
any_match-leaves_tail_example =
    any_match-leaves_tail reference (cons (int_ 3) nil) (7 ∷ [])
      (one_more (plain_int (omega arith)) no_more) (omega arith)

receive_rpc_reply-serialize_example :
    receive_rpc_reply reference false
      (message (serialize reference (e_tuple (cons (atom rex) (cons a_term nil)))))
    ≡ reply_part (serialize reference a_term)
receive_rpc_reply-serialize_example =
    receive_rpc_reply-serialize reference false a_term a_term-Listless

assign_ints-packed_example :
    (assign_ints reference (string_ext_g reference (serializable_string (1 ∷ 200 ∷ [])) ++ (7 ∷ []))
      ≡ assign_ints reference (serialize_ints reference (1 ∷ 200 ∷ []) ++ (7 ∷ [])))
    × (assign_ints reference (serialize_ints reference (1 ∷ 200 ∷ []) ++ (7 ∷ []))
        ≡ some (1 ∷ 200 ∷ [], 7 ∷ []))
assign_ints-packed_example =
    assign_ints-packed reference (1 ∷ 200 ∷ []) (7 ∷ []) (omega arith, (omega arith, tt))
      (omega arith)
