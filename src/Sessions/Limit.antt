-- ===== src/Sessions/Limit.antt =====
-- Hosts that come and go: how many sessions they have.
use oftc_blitzed.Base.{
  ℕ, ◌+◌, ◌-◌, ◌%◌, ◌≤◌, ◌<◌, ◌≡◌, ◌≢◌, refl, sym, subst, ◌∙◌, List, [], ◌∷◌, Option, none, some,
  ◌==◌, if◌then◌else◌, arith, Option-cases, Bool-cases, inl, inr,
}
use oftc_blitzed.Sessions.{
  Session, Table, Exception, Config, accepted, put, session_limit, refuse, add_to, add_session,
  del_session,
}

-- How often a host is among those who are connected.
abbrev pub sessions_of : ℕ → List ℕ → ℕ
sessions_of h [] = 0
sessions_of h (k ∷ l) = (if k == h then 1 else 0) + sessions_of h l

abbrev pub leave : ℕ → List ℕ → List ℕ
leave h [] = []
leave h (k ∷ l) = if k == h then l else k ∷ leave h l

-- The table, and the hosts whose users are connected.
pub record Network : Type 0 where
  pub table : Table
  pub connected : List ℕ

-- A host connects, and stays or is refused; a host with a session quits.
pub data Step (cfg : Config) (l : List Exception) (n m : Network) : Type 0 where
  join :
      (h : ℕ)
      → (add_session cfg l h n.table).1 ≡ accepted
      → m ≡ record { table = (add_session cfg l h n.table).0; connected = h ∷ n.connected }
      → Step cfg l n m
  turn_away :
      (h : ℕ)
      → (add_session cfg l h n.table).1 ≢ accepted
      → m ≡ record { table = (add_session cfg l h n.table).0; connected = n.connected }
      → Step cfg l n m
  quit :
      (h : ℕ)
      → 0 < sessions_of h n.connected
      → m ≡ record { table = del_session h n.table; connected = leave h n.connected }
      → Step cfg l n m

pub data Reach (cfg : Config) (l : List Exception) (n : Network) : Network → Type 0 where
  here : Reach cfg l n n
  next : {m o : Network} → Reach cfg l n m → Step cfg l m o → Reach cfg l n o

abbrev pub Counted : Option Session → ℕ → ℕ → Type 0
Counted none k limit = k ≡ 0
Counted (some s) k limit = (s.count ≡ k) × (k ≤ limit)

-- For every host with a limit, the row counts the sessions, and they are within the limit.
abbrev pub IsWithin : Config → List Exception → Network → Type 0
IsWithin cfg l n =
    (h : ℕ)
    → session_limit cfg l h ≢ 0
    → session_limit cfg l h < 4294967296
    → Counted (n.table h) (sessions_of h n.connected) (session_limit cfg l h)

sessions_of-leave :
    (h k : ℕ) (l : List ℕ)
    → 0 < sessions_of h l
    → sessions_of k (leave h l) + (if k == h then 1 else 0) ≡ sessions_of k l
sessions_of-leave h k [] p = ground (arith, p)
sessions_of-leave h k (x ∷ l) p = ground (arith, p, sessions_of-leave h k l)

-- The row of a host after add_session, and whether its user may stay.
abbrev one : Session
one = record { count = 1; killcount = 0 }

new_row :
    (cfg : Config) (l : List Exception) (h : ℕ) (t : Table)
    → t h ≡ none
    → ((add_session cfg l h t).0 h ≡ some one) × ((add_session cfg l h t).1 ≡ accepted)
unfolding put add_session
new_row cfg l h t e = (rw (e, add_session) (ground arith), rw (e, add_session))

old_row :
    (cfg : Config) (l : List Exception) (h : ℕ) (t : Table) (s : Session)
    → t h ≡ some s
    → ((add_session cfg l h t).0 h ≡ some (add_to cfg l h s).0)
      × ((add_session cfg l h t).1 ≡ (add_to cfg l h s).1)
unfolding put add_session add_to
old_row cfg l h t s e = (rw (e, add_session) (ground arith), rw (e, add_session))

other_row :
    (cfg : Config) (l : List Exception) (h k : ℕ) (t : Table)
    → h ≢ k
    → (add_session cfg l h t).0 k ≡ t k
unfolding put add_session
other_row cfg l h k t d = elim (Option-cases (t h)) [
  | inl e ↦ rw (e, add_session) (ground (arith, d))
  | inr (s, e) ↦ rw (e, add_session) (ground (arith, d))
]

add_to-accepted :
    (cfg : Config) (l : List Exception) (h : ℕ) (s : Session)
    → (add_to cfg l h s).1 ≡ accepted
    → session_limit cfg l h ≢ 0
    → ((add_to cfg l h s).0.count ≡ (s.count + 1) % 4294967296) × (s.count < session_limit cfg l h)
unfolding add_to refuse
add_to-accepted cfg l h s a n = ground (arith, a, n)

add_to-refused :
    (cfg : Config) (l : List Exception) (h : ℕ) (s : Session)
    → (add_to cfg l h s).1 ≢ accepted
    → (add_to cfg l h s).0.count ≡ s.count
unfolding add_to refuse
add_to-refused cfg l h s a = ground (arith, a)

del_row :
    (h : ℕ) (t : Table) (s : Session)
    → t h ≡ some s
    → del_session h t h ≡ some (record s { count = (s.count + 4294967296 - 1) % 4294967296 })
unfolding put del_session
del_row h t s e = rw (e, del_session) (ground arith)

by_host : (P : ℕ → Type 0) (h : ℕ) → P h → ((k : ℕ) → h ≢ k → P k) → (k : ℕ) → P k
by_host P h p others k = elim (Bool-cases (h == k)) [
  | inl q ↦ subst P (ground (arith, q)) p
  | inr q ↦ others k (ground (arith, q))
]

-- Whether a session more or as many as before are counted, the row keeps pace.
module _ (cfg : Config) (l : List Exception) (h : ℕ) (t : Table) (con : List ℕ) where
  joined :
      (r : Option Session)
      → t h ≡ r
      → (add_session cfg l h t).1 ≡ accepted
      → session_limit cfg l h ≢ 0
      → session_limit cfg l h < 4294967296
      → Counted r (sessions_of h con) (session_limit cfg l h)
      → Counted ((add_session cfg l h t).0 h) (sessions_of h (h ∷ con)) (session_limit cfg l h)
  joined none e a n w c = rw (new_row cfg l h t e).0 (ground (arith, n, c))
  joined (some s) e a n w c =
      let o = old_row cfg l h t s e in
      let p = add_to-accepted cfg l h s (sym o.1 ∙ a) n in rw o.0 (ground (arith, p.0, p.1, c, w))

  turned_away :
      (r : Option Session)
      → t h ≡ r
      → (add_session cfg l h t).1 ≢ accepted
      → Counted r (sessions_of h con) (session_limit cfg l h)
      → Counted ((add_session cfg l h t).0 h) (sessions_of h con) (session_limit cfg l h)
  turned_away none e a c = absurd (a (new_row cfg l h t e).1)
  turned_away (some s) e a c =
      let o = old_row cfg l h t s e in
      let p = add_to-refused cfg l h s (λ q. a (o.1 ∙ q)) in rw o.0 (ground (arith, p, c))

  left :
      (r : Option Session)
      → t h ≡ r
      → 0 < sessions_of h con
      → session_limit cfg l h < 4294967296
      → Counted r (sessions_of h con) (session_limit cfg l h)
      → Counted (del_session h t h) (sessions_of h (leave h con)) (session_limit cfg l h)
  left none e p w c = ground (arith, p, c)
  left (some s) e p w c = rw (del_row h t s e) (ground (arith, p, w, c, sessions_of-leave h h con))

del_other : (h k : ℕ) (t : Table) → h ≢ k → del_session h t k ≡ t k
unfolding put del_session
del_other h k t d = elim (Option-cases (t h)) [
  | inl e ↦ rw (e, del_session)
  | inr (s, e) ↦ rw (e, del_session) (ground (arith, d))
]

-- The bound of one host.
abbrev Bounded : Config → List Exception → Network → ℕ → Type 0
Bounded cfg l n h =
    session_limit cfg l h ≢ 0
    → session_limit cfg l h < 4294967296
    → Counted (n.table h) (sessions_of h n.connected) (session_limit cfg l h)

sessions_of-other : (h k : ℕ) (con : List ℕ) → h ≢ k → sessions_of k (h ∷ con) ≡ sessions_of k con
sessions_of-other h k con d = ground (arith, d)

leave-other : (h k : ℕ) (con : List ℕ) → h ≢ k → sessions_of k (leave h con) ≡ sessions_of k con
leave-other h k [] d = refl
leave-other h k (x ∷ con) d = ground (arith, d, leave-other h k con d)

Step-IsWithin :
    (cfg : Config) (l : List Exception) (n m : Network)
    → Step cfg l n m
    → IsWithin cfg l n
    → IsWithin cfg l m
Step-IsWithin cfg l n m (join h a e) v = subst (IsWithin cfg l) (sym e) (
    by_host
      (Bounded cfg l
        (record { table = (add_session cfg l h n.table).0; connected = h ∷ n.connected }))
      h (λ p w. joined cfg l h n.table n.connected (n.table h) refl a p w (v h p w))
      (λ k d p w.
        rw (other_row cfg l h k n.table d, sessions_of-other h k n.connected d) (v k p w)))
Step-IsWithin cfg l n m (turn_away h a e) v = subst (IsWithin cfg l) (sym e) (
    by_host
      (Bounded cfg l (record { table = (add_session cfg l h n.table).0; connected = n.connected }))
      h (λ p w. turned_away cfg l h n.table n.connected (n.table h) refl a (v h p w))
      (λ k d p w. rw (other_row cfg l h k n.table d) (v k p w)))
Step-IsWithin cfg l n m (quit h a e) v = subst (IsWithin cfg l) (sym e) (
    by_host
      (Bounded cfg l (record { table = del_session h n.table; connected = leave h n.connected })) h
      (λ p w. left cfg l h n.table n.connected (n.table h) refl a w (v h p w))
      (λ k d p w. rw (del_other h k n.table d, leave-other h k n.connected d) (v k p w)))

Reach-IsWithin :
    {cfg : Config} {l : List Exception} {n m : Network}
    → Reach cfg l n m
    → IsWithin cfg l n
    → IsWithin cfg l m
Reach-IsWithin here v = v
Reach-IsWithin {cfg} {l} (next {m} {o} r s) v = Step-IsWithin cfg l m o s (Reach-IsWithin r v)

abbrev pub nobody : Network
nobody = record { table = λ h. none; connected = [] }

counted-le : (r : Option Session) (k limit : ℕ) → Counted r k limit → k ≤ limit
counted-le none k limit c = omega (arith, c)
counted-le (some s) k limit c = c.1

-- From an empty table, however users connect and quit, a host never has more sessions than its limit, if it has one that
-- 32 bits hold: add_session refuses in time, and del_session counts every one that goes.
pub Reach-session_limit :
    (cfg : Config) (l : List Exception) (n : Network) (h : ℕ)
    → Reach cfg l nobody n
    → session_limit cfg l h ≢ 0
    → session_limit cfg l h < 4294967296
    → sessions_of h n.connected ≤ session_limit cfg l h
Reach-session_limit cfg l n h r p w =
    counted-le (n.table h) (sessions_of h n.connected) (session_limit cfg l h)
      (Reach-IsWithin r (λ k q u. refl) h p w)
