-- ===== src/Node/Numbering.antt =====
-- impl/actual_node.cpp: the pid of a mailbox tells when it was created.
use tinch_pp.Prelude.{
  ℕ, suc, zero, ◌+◌, ◌/◌, ◌%◌, ◌^◌, ◌<◌, ◌≡◌, true, false, List, [], ◌∷◌, ◌++◌, arith, length,
  length-append, inl, inr, Bool-cases, sym, subst, ◌∙◌,
}
use tinch_pp.Types.{MsgSeq, EPid, pid_lt}
use tinch_pp.Maps.{same, pid_key}
use tinch_pp.Pids.{PidFields, make_pid, update_pid_fields}
use tinch_pp.Pids.Uniqueness.{Counts, update-Counts}
use tinch_pp.Node.{Node, MailboxObject}
use tinch_pp.Node.Consistency.{has_pid, get_elem?-append, Consistent, Tame, Tame-Consistent}

-- The digits of a pid that the mailbox at a position has.
abbrev pub At : EPid → ℕ → Type 0
At pid i = (pid.id ≡ (1 + i) % 2 ^ 15) × (pid.serial ≡ (1 + i) / 2 ^ 15 % 2 ^ 13)

abbrev pub Numbered : List MailboxObject → Type 0
Numbered objects = (i : ℕ) (pid : EPid) → has_pid objects i pid ≡ true → At pid i

abbrev pub Sound : Node → Type 0
Sound n = Consistent n × (Numbered n.objects × Counts n.pid_fields (1 + length n.objects))

same-At : (p q : EPid) (i : ℕ) → same p q ≡ true → At p i → At q i
unfolding pid_lt
same-At p q i e h = ground arith

pub append-Numbered :
    (objects : List MailboxObject) (o : MailboxObject)
    → Numbered objects
    → At o.own_pid (length objects)
    → Numbered (objects ++ (o ∷ []))
append-Numbered objects o h a i pid e =
    ground (arith, h i pid, get_elem?-append objects o i, same-At o.own_pid pid i)

pub make_pid-At :
    (name : MsgSeq) (f : PidFields) (k : ℕ) → Counts f (1 + k) → At (make_pid name f).0 k
unfolding make_pid
make_pid-At name f k h = h

pub make_pid-Counts :
    (name : MsgSeq) (f : PidFields) (objects : List MailboxObject) (o : MailboxObject)
    → Counts f (1 + length objects)
    → Counts (make_pid name f).1 (1 + length (objects ++ (o ∷ [])))
unfolding make_pid
make_pid-Counts name f objects o h =
    subst (Counts (update_pid_fields f)) (omega (arith, length-append objects (o ∷ [])))
      (update-Counts f (1 + length objects) h)

pub Tame-Sound : (n n' : Node) → Tame n n' → Sound n → Sound n'
Tame-Sound n n' t (c, (m, k)) = (
  Tame-Consistent n n' t c,
  (
    λ i p e. m i p (sym (t.1.0 i p) ∙ e),
    subst (λ f. Counts f (1 + length n'.objects)) (sym t.0.0)
        (subst (λ l. Counts n.pid_fields (1 + l)) (sym t.0.1) k),
  ),
)

pub has_pid-lt :
    (objects : List MailboxObject) (i : ℕ) (pid : EPid)
    → has_pid objects i pid ≡ true
    → i < length objects
has_pid-lt [] i pid e = absurd (ground arith)
has_pid-lt (x ∷ xs) zero pid e = omega arith
has_pid-lt (x ∷ xs) (suc i) pid e = omega (arith, has_pid-lt xs i pid e)

-- No mailbox that was created before has the pid of the next one, if there are fewer than 2 ^ 28.
pub not_taken :
    (objects : List MailboxObject) (i : ℕ) (pid : EPid)
    → Numbered objects
    → At pid (length objects)
    → length objects < 2 ^ 28
    → has_pid objects i pid ≡ false
not_taken objects i pid h a l = elim (Bool-cases (has_pid objects i pid)) [
  | inl e ↦ absurd (
      omega
        (arith, has_pid-lt objects i pid e, h i pid e, a.0, a.1, (h i pid e).0, (h i pid e).1, l))
  | inr e ↦ e
]
