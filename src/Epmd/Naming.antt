-- ===== src/Epmd/Naming.antt =====
-- The parts of a node's name, as impl/utils.cpp takes them apart.
use tinch_pp.Prelude.{
  ℕ, ◌≡◌, ◌∙◌, refl, ap, true, false, ◌&&◌, [], ◌∷◌, ◌++◌, Option, none, some, arith, nat_beq,
  if◌then◌else◌,
}
use tinch_pp.Types.{MsgSeq}
use tinch_pp.Epmd.Peers.{
  is_name_char, all_name_chars, is_part, at_sign, split_node_name, first_of, second_of, node_name,
  node_host,
}

name_char-ne : (b : ℕ) → is_name_char b ≡ true → nat_beq b b'@' ≡ false
unfolding is_name_char
name_char-ne b h = ground arith

at_sign-append :
    (name host : MsgSeq)
    → all_name_chars name ≡ true
    → at_sign (name ++ (b'@' ∷ host)) ≡ some (name, host)
at_sign-append [] host h = refl
at_sign-append (b ∷ name) host h = ground (arith, name_char-ne b, at_sign-append name host)

part-chars : (s : MsgSeq) → is_part s ≡ true → all_name_chars s ≡ true
part-chars [] h = absurd (cc h)
part-chars (b ∷ s) h = h

split_node_name-join :
    (name host : MsgSeq)
    → is_part name ≡ true
    → is_part host ≡ true
    → split_node_name (name ++ (b'@' ∷ host)) ≡ some (name, host)
unfolding split_node_name
split_node_name-join name host h k =
    let e = at_sign-append name host (part-chars name h) in
    ap
      (λ o. elim o as (λ _. Option (MsgSeq × MsgSeq)) [
        | none ↦ none
        | some (n, g) ↦ if is_part n && is_part g then some (n, g) else none
      ])
      e
    ∙ ground (arith, h, k)

-- A name and a host of one or more word characters, dots and dashes each, joined by an at sign, are
-- taken apart as they were joined.
node_name-join :
    (name host : MsgSeq)
    → is_part name ≡ true
    → is_part host ≡ true
    → (node_name (name ++ (b'@' ∷ host)) ≡ some name)
      × (node_host (name ++ (b'@' ∷ host)) ≡ some host)
unfolding node_name node_host
node_name-join name host h k =
    let e = split_node_name-join name host h k in (ap first_of e, ap second_of e)
