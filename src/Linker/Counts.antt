-- ===== src/Linker/Counts.antt =====
-- What each operation of impl/linker.cpp does to the number of links between two processes.
use tinch_pp.Prelude.{
  ◌+◌, ◌≡◌, ◌&&◌, ◌||◌, List, [], ◌∷◌, ◌++◌, arith, ◌==◌, if◌then◌else◌, remove, count, Eq,
  pair_beq,
}
use tinch_pp.Types.{EPid, pid_eq, link_eq}
use tinch_pp.Linker.{
  Linker, remove_link_between, same_link, establish_link_between, link_count, link, unlink,
  remove_links_loop, remove_links_from,
}

module _ {ℓ} {A : Type ℓ} ⦃e : Eq A⦄ where
  count-remove :
      (a b : A) (xs : List A) → count b (remove a xs) ≡ (if a == b then 0 else count b xs)
  unfolding count remove
  count-remove a b [] = ground arith
  count-remove a b (x ∷ xs) =
      ground (arith, count-remove a b xs, e.beq_iff x a, e.beq_iff x b, e.beq_iff a b)

  count-append : (b : A) (xs ys : List A) → count b (xs ++ ys) ≡ count b xs + count b ys
  unfolding count
  count-append b [] ys = ground arith
  count-append b (x ∷ xs) ys = ground (arith, count-append b xs ys)

count-one :
    (a b p q : EPid)
    → count {A = EPid × EPid} (p, q) ((a, b) ∷ []) ≡ (if a == p && b == q then 1 else 0)
unfolding count pair_beq
count-one a b p q = ground arith

count-remove_pair :
    (a b p q : EPid) (xs : List (EPid × EPid))
    → count (p, q) (remove (a, b) xs) ≡ (if a == p && b == q then 0 else count (p, q) xs)
unfolding pair_beq
count-remove_pair a b p q xs = count-remove (a, b) (p, q) xs

-- Adding a link and removing one, seen at every pair of processes.
module _ (l : Linker) (a b p q : EPid) where
  pub link_count-unlink :
      link_count (unlink l a b) p q ≡ (if same_link a b p q then 0 else link_count l p q)
  unfolding unlink remove_link_between link_count
  link_count-unlink = ground (
    arith,
    count-remove_pair b a p q (remove (a, b) l.established_links),
    count-remove_pair b a q p (remove (a, b) l.established_links),
    count-remove_pair a b p q l.established_links,
    count-remove_pair a b q p l.established_links,
    pid_eq.beq_iff p q,
  )

  pub link_count-establish :
      link_count (establish_link_between l a b) p q
      ≡ (if same_link a b p q then 1 else 0) + link_count l p q
  unfolding establish_link_between link_count
  link_count-establish = ground (
    arith,
    count-append (p, q) l.established_links ((a, b) ∷ []),
    count-append (q, p) l.established_links ((a, b) ∷ []),
    count-one a b p q,
    count-one a b q p,
    pid_eq.beq_iff p q,
    pid_eq.beq_iff a p,
    pid_eq.beq_iff a q,
    pid_eq.beq_iff b p,
    pid_eq.beq_iff b q,
  )

pub link_count-link :
    (l : Linker) (a b p q : EPid)
    → link_count (link l a b) p q ≡ (if same_link a b p q then 1 else link_count l p q)
unfolding link unlink
link_count-link l a b p q =
    ground (arith, link_count-establish (unlink l a b) a b p q, link_count-unlink l a b p q)

module _ (d : EPid) where
  count-kept :
      (p q : EPid) (links : List (EPid × EPid))
      → count (p, q) (remove_links_loop d links).0
        ≡ (if d == p || d == q then 0 else count (p, q) links)
  unfolding remove_links_loop count pair_beq
  count-kept p q [] = ground arith
  count-kept p q ((x, y) ∷ links) = ground (
    arith,
    count-kept p q links,
    pid_eq.beq_iff d x,
    pid_eq.beq_iff d y,
    pid_eq.beq_iff d p,
    pid_eq.beq_iff d q,
    pid_eq.beq_iff x p,
    pid_eq.beq_iff y q,
  )

  count-removed :
      (q : EPid) (links : List (EPid × EPid))
      → count q (remove_links_loop d links).1
        ≡ count (d, q) links + (if d == q then 0 else count (q, d) links)
  unfolding remove_links_loop count pair_beq
  count-removed q [] = ground arith
  count-removed q ((x, y) ∷ links) = ground (
    arith,
    count-removed q links,
    pid_eq.beq_iff d x,
    pid_eq.beq_iff d y,
    pid_eq.beq_iff d q,
    pid_eq.beq_iff x q,
    pid_eq.beq_iff y q,
    pid_eq.beq_iff x d,
    pid_eq.beq_iff y d,
  )

  -- The links of a dying process go, and no other link is touched.
  pub link_count-remove_links_from :
      (l : Linker) (p q : EPid)
      → link_count (remove_links_from l d).0 p q
        ≡ (if d == p || d == q then 0 else link_count l p q)
  unfolding remove_links_from link_count
  link_count-remove_links_from l p q =
      ground (arith, count-kept p q l.established_links, count-kept q p l.established_links)

  -- Each peer is handed over as often as it was linked.
  pub count-remove_links_from :
      (l : Linker) (q : EPid) → count q (remove_links_from l d).1 ≡ link_count l d q
  unfolding remove_links_from link_count
  count-remove_links_from l q = count-removed q l.established_links
