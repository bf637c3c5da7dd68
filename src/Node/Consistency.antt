-- ===== src/Node/Consistency.antt =====
-- impl/actual_node.cpp: the maps of mailboxes name the mailboxes they should, after any operations.
use tinch_pp.Prelude.{
  ◌∙◌, ℕ, suc, zero, ◌≡◌, refl, Bool, true, false, List, [], ◌∷◌, ◌++◌, none, some, arith, length,
  if◌then◌else◌, bytes_eq, nat_beq,
}
use tinch_pp.Types.{MsgSeq, EPid}
use tinch_pp.Maps.{find, insert, same, pid_key, name_key, find-insert}
use tinch_pp.Node.{Node, MailboxObject, get_elem?, modify}

-- The mailbox at a position has the pid, or the name, that a key of a map stands for.
abbrev pub has_pid : List MailboxObject → ℕ → EPid → Bool
has_pid objects i pid = elim (get_elem? objects i) [ none ↦ false | some o ↦ same o.own_pid pid ]

abbrev pub has_name : List MailboxObject → ℕ → MsgSeq → Bool
has_name objects i name = elim (get_elem? objects i) [
  | none ↦ false
  | some o ↦ same o.own_name name
]

abbrev pub PidsAgree : List (EPid × ℕ) → List MailboxObject → Type 0
PidsAgree m objects = (pid : EPid) (i : ℕ) → find pid m ≡ some i → has_pid objects i pid ≡ true

abbrev pub NamesAgree : List (MsgSeq × ℕ) → List MailboxObject → Type 0
NamesAgree m objects =
    (name : MsgSeq) (i : ℕ) → find name m ≡ some i → has_name objects i name ≡ true

abbrev pub Consistent : Node → Type 0
Consistent n = PidsAgree n.mailboxes n.objects × NamesAgree n.registered_mailboxes n.objects

-- A change of one object that keeps its pid and its name.
pub has_pid-modify :
    (f : MailboxObject → MailboxObject) (objects : List MailboxObject) (i j : ℕ) (pid : EPid)
    → ((o : MailboxObject) → (f o).own_pid ≡ o.own_pid)
    → has_pid (modify j f objects) i pid ≡ has_pid objects i pid
has_pid-modify f [] i j pid h = refl
has_pid-modify f (x ∷ xs) zero zero pid h = rw (h x) refl
has_pid-modify f (x ∷ xs) zero (suc j) pid h = refl
has_pid-modify f (x ∷ xs) (suc i) zero pid h = refl
has_pid-modify f (x ∷ xs) (suc i) (suc j) pid h = has_pid-modify f xs i j pid h

pub has_name-modify :
    (f : MailboxObject → MailboxObject) (objects : List MailboxObject) (i j : ℕ) (name : MsgSeq)
    → ((o : MailboxObject) → (f o).own_name ≡ o.own_name)
    → has_name (modify j f objects) i name ≡ has_name objects i name
has_name-modify f [] i j name h = refl
has_name-modify f (x ∷ xs) zero zero name h = rw (h x) refl
has_name-modify f (x ∷ xs) zero (suc j) name h = refl
has_name-modify f (x ∷ xs) (suc i) zero name h = refl
has_name-modify f (x ∷ xs) (suc i) (suc j) name h = has_name-modify f xs i j name h

pub get_elem?-append :
    (xs : List MailboxObject) (o : MailboxObject) (i : ℕ)
    → get_elem? (xs ++ (o ∷ [])) i ≡ (if nat_beq i (length xs) then some o else get_elem? xs i)
get_elem?-append [] o zero = refl
get_elem?-append [] o (suc i) = ground arith
get_elem?-append (x ∷ xs) o zero = ground arith
get_elem?-append (x ∷ xs) o (suc i) = ground (arith, get_elem?-append xs o i)

pub get_elem?-length : (xs : List MailboxObject) → get_elem? xs (length xs) ≡ none
get_elem?-length [] = refl
get_elem?-length (x ∷ xs) = get_elem?-length xs

pub insert-PidsAgree :
    (m : List (EPid × ℕ)) (objects : List MailboxObject) (o : MailboxObject)
    → PidsAgree m objects
    → PidsAgree (insert o.own_pid (length objects) m) (objects ++ (o ∷ []))
insert-PidsAgree m objects o h pid i e = ground (
  arith,
  h pid i,
  find-insert pid o.own_pid (length objects) m,
  get_elem?-append objects o i,
  get_elem?-length objects,
)

pub insert-NamesAgree :
    (m : List (MsgSeq × ℕ)) (objects : List MailboxObject) (o : MailboxObject)
    → NamesAgree m objects
    → NamesAgree (insert o.own_name (length objects) m) (objects ++ (o ∷ []))
insert-NamesAgree m objects o h name i e = ground (
  arith,
  h name i,
  find-insert name o.own_name (length objects) m,
  get_elem?-append objects o i,
  get_elem?-length objects,
)

-- A further object changes no agreement.
pub append-NamesAgree :
    (m : List (MsgSeq × ℕ)) (objects : List MailboxObject) (o : MailboxObject)
    → NamesAgree m objects
    → NamesAgree m (objects ++ (o ∷ []))
append-NamesAgree m objects o h name i e =
    ground (arith, h name i, get_elem?-append objects o i, get_elem?-length objects)

-- The counters of the pids and the number of mailboxes are as they were.
abbrev pub Kept : Node → Node → Type 0
Kept n n' = (n'.pid_fields ≡ n.pid_fields) × (length n'.objects ≡ length n.objects)

-- An operation that creates no mailbox and enters none in a map.
abbrev pub Tame : Node → Node → Type 0
Tame n n' =
    Kept n n'
    × (((i : ℕ) (pid : EPid) → has_pid n'.objects i pid ≡ has_pid n.objects i pid)
        × (((i : ℕ) (name : MsgSeq) → has_name n'.objects i name ≡ has_name n.objects i name)
            × (((pid : EPid) (i : ℕ)
                  → find pid n'.mailboxes ≡ some i
                  → find pid n.mailboxes ≡ some i)
                × ((name : MsgSeq) (i : ℕ)
                    → find name n'.registered_mailboxes ≡ some i
                    → find name n.registered_mailboxes ≡ some i))))

pub refl-Tame : (n : Node) → Tame n n
refl-Tame n = ((refl, refl), (λ i p. refl, (λ i p. refl, (λ p i e. e, λ p i e. e))))

pub trans-Tame : (n m l : Node) → Tame n m → Tame m l → Tame n l
trans-Tame n m l ((f, s), (a, (b, (c, d)))) ((f', s'), (a', (b', (c', d')))) = (
  (f' ∙ f, s' ∙ s),
  (
    λ i p. a' i p ∙ a i p,
    (λ i p. b' i p ∙ b i p, (λ p i e. c p i (c' p i e), λ p i e. d p i (d' p i e))),
  ),
)

pub Tame-Consistent : (n n' : Node) → Tame n n' → Consistent n → Consistent n'
Tame-Consistent n n' (k, (a, (b, (c, d)))) (h, g) =
    (λ p i e. a i p ∙ h p i (c p i e), λ p i e. b i p ∙ g p i (d p i e))

pub length-modify :
    (f : MailboxObject → MailboxObject) (i : ℕ) (objects : List MailboxObject)
    → length (modify i f objects) ≡ length objects
length-modify f i [] = refl
length-modify f zero (x ∷ xs) = refl
length-modify f (suc i) (x ∷ xs) = omega (arith, length-modify f i xs)
