-- ===== src/Servers/Forest.antt =====
-- Servers and what is linked behind them, and recursive_squit on it.
use oftc_blitzed.Base.{
  ℕ, zero, suc, ◌+◌, ◌<◌, ◌≡◌, refl, sym, ap, subst, ◌∙◌, true, false, List, [], ◌∷◌, ◌++◌, Option,
  none, some, arith, ◌==◌, if◌then◌else◌, mem, length, length-append, Bool-cases, inl, inr,
}
use oftc_blitzed.Servers.{Server, Servers, put, delete_server, squit_from}

-- The servers that are reached by `child` and `sibling` from a pointer, each once: the children of a
-- server, the server itself, and its siblings.
pub data Forest (node : ℕ → Option Server) : Option ℕ → List ℕ → Type 0 where
  leaf : Forest node none []
  tree :
      {a : ℕ} {s : Server} {l r k : List ℕ}
      → node a ≡ some s
      → Forest node s.child l
      → Forest node s.sibling r
      → k ≡ l ++ a ∷ r
      → Forest node (some a) k

abbrev pub Distinct : List ℕ → Type 0
Distinct [] = Unit
Distinct (a ∷ l) = (mem a l ≡ false) × Distinct l

pub mem-append : (x : ℕ) (l r : List ℕ) → mem x (l ++ r) ≡ (if mem x l then true else mem x r)
mem-append x [] r = refl
mem-append x (a ∷ l) r = ground (arith, mem-append x l r)

Distinct-append :
    (l r : List ℕ)
    → Distinct (l ++ r)
    → Distinct l × Distinct r × ((x : ℕ) → mem x l ≡ true → mem x r ≡ false)
Distinct-append [] r d = (tt, d, λ x m. absurd (cc))
Distinct-append (a ∷ l) r (n, d) =
    let (p, q, f) = Distinct-append l r d in
    (
      (ground (arith, n, mem-append a l r), p),
      q,
      λ x m. ground (arith, n, mem-append x l r, mem-append a l r, m, f x),
    )

-- The servers of the list are deleted, one after the other.
abbrev pub delete_all : List ℕ → Servers → Servers
delete_all [] c = c
delete_all (a ∷ l) c = delete_all l (delete_server a c)

delete_all-append :
    (l r : List ℕ) (c : Servers) → delete_all (l ++ r) c ≡ delete_all r (delete_all l c)
delete_all-append [] r c = refl
delete_all-append (a ∷ l) r c = delete_all-append l r (delete_server a c)

delete_server-node :
    (a b : ℕ) (c : Servers) → (delete_server a c).node b ≡ (if b == a then none else c.node b)
unfolding delete_server put
delete_server-node a b c = refl

pub delete_all-node :
    (l : List ℕ) (c : Servers) (b : ℕ)
    → (delete_all l c).node b ≡ (if mem b l then none else c.node b)
delete_all-node [] c b = refl
delete_all-node (a ∷ l) c b =
    delete_all-node l (delete_server a c) b ∙ ground (arith, delete_server-node a b c)

pub Forest-node :
    {node node' : ℕ → Option Server} {o : Option ℕ} {l : List ℕ}
    → Forest node o l
    → ((x : ℕ) → mem x l ≡ true → node' x ≡ node x)
    → Forest node' o l
Forest-node leaf h = leaf
Forest-node (tree {a} {s} {l} {r} {k} e f g q) h =
    tree (h a (in_middle a l r k q) ∙ e)
      (Forest-node f (λ x m. h x (ground (arith, ap (mem x) q, mem-append x l (a ∷ r), m))))
      (Forest-node g (λ x m. h x (ground (arith, ap (mem x) q, mem-append x l (a ∷ r), m)))) q
  where
    in_middle : (a : ℕ) (l r k : List ℕ) → k ≡ l ++ a ∷ r → mem a k ≡ true
    in_middle a l r k q = ground (arith, ap (mem a) q, mem-append a l (a ∷ r))

or_skip :
    (n : ℕ) (o : Option ℕ) (c : Servers)
    → 0 < n
    → elim o [ none ↦ some c | some k ↦ squit_from n (some k) c ] ≡ squit_from n o c
unfolding squit_from
or_skip zero o c p = absurd (omega (arith, p))
or_skip (suc n) none c p = refl
or_skip (suc n) (some k) c p = refl

pub mem-other : (a x : ℕ) (l : List ℕ) → mem a l ≡ false → mem x l ≡ true → (x == a) ≡ false
mem-other a x l n m = elim (Bool-cases (x == a)) [
  | inl e ↦ let q : x ≡ a = ground (arith, e) in absurd (cc (ap (λ y. mem y l) q))
  | inr e ↦ e
]

not_before :
    (x : ℕ) (l r : List ℕ)
    → ((y : ℕ) → mem y l ≡ true → mem y r ≡ false)
    → mem x r ≡ true
    → mem x l ≡ false
not_before x l r f m = elim (Bool-cases (mem x l)) [ inl e ↦ absurd (cc (f x e)) | inr e ↦ e ]

-- What comes behind a server is still there when the server and its children are gone.
kept :
    (a : ℕ) (cs r : List ℕ) (c : Servers)
    → mem a r ≡ false
    → ((y : ℕ) → mem y cs ≡ true → mem y (a ∷ r) ≡ false)
    → (x : ℕ) → mem x r ≡ true
    → (delete_server a (delete_all cs c)).node x ≡ c.node x
kept a cs r c n f x m =
    let p : mem x cs ≡ false = not_before x cs (a ∷ r) f (ground (arith, m)) in
    delete_server-node a x (delete_all cs c)
    ∙ rw (mem-other a x r n m) (delete_all-node cs c x ∙ rw p refl)

-- A loop over a pointer deletes what it reaches, children first.
pub squit_from-Forest :
    (fuel : ℕ) (o : Option ℕ) (c : Servers) (l : List ℕ)
    → Forest c.node o l
    → Distinct l
    → length l < fuel
    → squit_from fuel o c ≡ some (delete_all l c)
unfolding squit_from
squit_from-Forest zero o c l f d p = absurd (omega (arith, p))
squit_from-Forest (suc n) none c l leaf d p = refl
squit_from-Forest (suc n) (some a) c l (tree {s} {l = cs} {r} e f g q) d p =
    let d' : Distinct (cs ++ a ∷ r) = subst Distinct q d in
    let (dl, dr, apart) = Distinct-append cs (a ∷ r) d' in
    let len : length l ≡ length cs + (1 + length r) =
      omega (arith, ap length q, length-append cs (a ∷ r)) in
    let a_free : mem a cs ≡ false = not_before a cs (a ∷ r) apart (ground arith) in
    let e' : (delete_all cs c).node a ≡ some s = delete_all-node cs c a ∙ rw (a_free) e in
    let first : squit_from n s.child c ≡ some (delete_all cs c) =
      squit_from-Forest n s.child c cs f dl (omega (arith, len, p)) in
    let second : squit_from n s.sibling (delete_server a (delete_all cs c))
        ≡ some (delete_all r (delete_server a (delete_all cs c))) =
      squit_from-Forest n s.sibling (delete_server a (delete_all cs c)) r
        (Forest-node g (kept a cs r c dr.0 apart)) dr.1 (omega (arith, len, p)) in
    rw (squit_from, e, or_skip n s.child c (omega (arith, len, p)), first, e', second)
      (ap some (sym (ap (λ k. delete_all k c) q ∙ delete_all-append cs (a ∷ r) c)))
