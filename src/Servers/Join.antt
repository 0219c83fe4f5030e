-- ===== src/Servers/Join.antt =====
-- A server that is linked to a hub becomes its last child.
use oftc_blitzed.Base.{
  ℕ, zero, suc, ◌<◌, ◌≡◌, refl, sym, ap, subst, ◌∙◌, Bool, true, false, List, [], ◌∷◌, Option, none,
  some, arith, ◌==◌, if◌then◌else◌, mem, length, Bytes,
}
use oftc_blitzed.Servers.{
  Server, Servers, bind, put, remember, search, is_last, modify, last_sibling, add_child,
  new_server, findserver, do_server,
}
use oftc_blitzed.Servers.Forest.{Distinct, mem-other}
use oftc_blitzed.Servers.Siblings.{Siblings, Siblings-node, put-other, put-same}

abbrev pub append : List ℕ → ℕ → List ℕ
append [] a = a ∷ []
append (x ∷ l) a = x ∷ append l a

abbrev to_sibling : ℕ → Server → Server
to_sibling a s = record s { sibling = some a }

record Appended (c : Servers) (t a : ℕ) (k : List ℕ) (c' : Servers) : Type 0 where
  chain : Siblings c'.node (some t) (t ∷ append k a)
  others : (b : ℕ) → mem b (t ∷ k) ≡ false → c'.node b ≡ c.node b

last_sibling-Appended :
    (fuel t a : ℕ) (c : Servers) (s : Server) (k : List ℕ)
    → c.node a ≡ some s
    → s.sibling ≡ none
    → Siblings c.node (some t) (t ∷ k)
    → Distinct (t ∷ k)
    → mem a (t ∷ k) ≡ false
    → length k < fuel
    → (c' : Servers) × (bind (last_sibling fuel t c) (λ x. modify x (to_sibling a) c) ≡ some c')
      × Appended c t a k c'
unfolding last_sibling
last_sibling-Appended zero t a c s k ea es f d m p = absurd (omega (arith, p))
last_sibling-Appended (suc n) t a c s [] ea es (q, (ts, et, e)) d m p =
    let new = to_sibling a ts in
    (
      put t (some new) c,
      rw (last_sibling, et, e) (rw (et) refl),
      record {
        chain = (
          refl,
          (
            new,
            put-same t (some new) c,
            (refl, (s, put-other t a (some new) c (ground (arith, m)) ∙ ea, es)),
          ),
        );
        others = λ b g. put-other t b (some new) c (ground (arith, g));
      },
    )
last_sibling-Appended (suc n) t a c s (x ∷ k) ea es (q, (ts, et, (e, (xs, ex, f)))) (d, (dx, dk)) m
      p =
    let (c', u, w) =
      last_sibling-Appended n x a c s k ea es (refl, (xs, ex, f)) (dx, dk) (ground (arith, m))
        (omega (arith, p)) in
    (
      c',
      rw (last_sibling, et, e) u,
      record {
        chain = (
          refl,
          (ts, w.others t d ∙ et, subst (λ o. Siblings c'.node o (x ∷ append k a)) (sym e) w.chain),
        );
        others = λ b g. w.others b (ground (arith, g));
      },
    )

-- What `hub` and its children are when `a` is one of them.
pub record HasGained (c : Servers) (hub a : ℕ) (k : List ℕ) (c' : Servers) : Type 0 where
  pub hub' : Server
  pub at_hub : c'.node hub ≡ some hub'
  pub children : Siblings c'.node hub'.child (append k a)
  pub others : (b : ℕ) → mem b (hub ∷ k) ≡ false → c'.node b ≡ c.node b

add_child-HasGained :
    (fuel hub a : ℕ) (c : Servers) (h s : Server) (k : List ℕ)
    → c.node hub ≡ some h
    → c.node a ≡ some s
    → s.sibling ≡ none
    → Siblings c.node h.child k
    → Distinct (hub ∷ k)
    → mem a (hub ∷ k) ≡ false
    → length k < fuel
    → (c' : Servers) × (add_child fuel hub a c ≡ some c') × HasGained c hub a k c'
unfolding add_child
add_child-HasGained fuel hub a c h s [] eh ea es e d m p =
    let new = record h { child = some a } in
    (
      put hub (some new) c,
      rw (add_child, eh, e) (rw (eh) refl),
      record {
        hub' = new;
        at_hub = put-same hub (some new) c;
        children = (refl, (s, put-other hub a (some new) c (ground (arith, m)) ∙ ea, es));
        others = λ b g. put-other hub b (some new) c (ground (arith, g));
      },
    )
add_child-HasGained fuel hub a c h s (x ∷ k) eh ea es (e, (xs, ex, f)) (d, (dx, dk)) m p =
    let (c', u, w) =
      last_sibling-Appended fuel x a c s k ea es (refl, (xs, ex, f)) (dx, dk) (ground (arith, m))
        (omega (arith, p)) in
    (
      c',
      rw (add_child, eh, e) u,
      record {
        hub' = h;
        at_hub = w.others hub d ∙ eh;
        children = subst (λ o. Siblings c'.node o (x ∷ append k a)) (sym e) w.chain;
        others = λ b g. w.others b (ground (arith, g));
      },
    )

node_of : (ℕ → Option Server) → Option (Option ℕ × Servers) → ℕ → Option Server
node_of f none = f
node_of f (some (r, c)) = c.node

abbrev answer : Servers → Option ℕ → Option (Option ℕ × Servers)
answer c r = some (r, remember r c)

answer-node : (c : Servers) (o : Option (Option ℕ)) → node_of c.node (bind o (answer c)) ≡ c.node
unfolding node_of
answer-node c none = refl
answer-node c (some none) = refl
answer-node c (some (some a)) = refl

-- findserver changes no server.
pub findserver-node :
    (name : Bytes) (c c' : Servers) (r : Option ℕ)
    → findserver name c ≡ some (r, c')
    → c'.node ≡ c.node
unfolding findserver node_of
findserver-node name c c' r e =
    sym (ap (node_of c.node) e) ∙ by_last (is_last name c.node c.lastserver)
  where
    by_last :
        (o : Option Bool)
        → node_of c.node (
            bind o (λ b.
              if b
              then some (c.lastserver, c)
              else bind (search name c.node c.serverlist) (answer c)))
          ≡ c.node
    by_last none = refl
    by_last (some true) = refl
    by_last (some false) = answer-node c (search name c.node c.serverlist)

-- The new server `a` under `hub`, which had the children `k`.
pub record HasJoined (c : Servers) (hub a : ℕ) (name : Bytes) (k : List ℕ) (c' : Servers)
    : Type 0 where
  pub hub' : Server
  pub at_hub : c'.node hub ≡ some hub'
  pub children : Siblings c'.node hub'.child (append k a)
  pub joined :
      c'.node a ≡ some (record { name = name; hub = some hub; child = none; sibling = none })
  pub others : (b : ℕ) → mem b (a ∷ hub ∷ k) ≡ false → c'.node b ≡ c.node b

abbrev linked : ℕ → Bytes → Server
linked hub name = record { name = name; hub = some hub; child = none; sibling = none }

new_server-node :
    (name : Bytes) (c : Servers)
    → (new_server name c).node c.fresh
      ≡ some (record { name = name; hub = none; child = none; sibling = none })
unfolding new_server put
new_server-node name c = ground arith

new_server-other :
    (name : Bytes) (c : Servers) (b : ℕ)
    → (b == c.fresh) ≡ false
    → (new_server name c).node b ≡ c.node b
unfolding new_server put
new_server-other name c b n = rw n refl

-- SERVER from a hub that findserver finds ends, with fuel for the children of the hub, and makes the
-- new server the last of them; it has the name, the hub and no servers behind it, and the servers that
-- are neither the hub nor one of its children stay as they were. This supposes that the address of the
-- new server is not in use, and that no child stands twice in the chain.
pub do_server-HasJoined :
    (fuel : ℕ) (x : ℕ) (source name : Bytes) (c c2 : Servers) (hub : ℕ) (h : Server) (k : List ℕ)
    → findserver (x ∷ source) (new_server name c) ≡ some (some hub, c2)
    → c.node hub ≡ some h
    → Siblings c.node h.child k
    → Distinct (hub ∷ k)
    → mem c.fresh (hub ∷ k) ≡ false
    → length k < fuel
    → (c' : Servers) × (do_server fuel (x ∷ source) name c ≡ some c')
      × HasJoined c hub c.fresh name k c'
unfolding do_server
do_server-HasJoined fuel x source name c c2 hub h k e eh f d m p =
    let a = c.fresh in
    let c3 = put a (some (linked hub name)) c2 in
    let e2 : c2.node ≡ (new_server name c).node =
      findserver-node (x ∷ source) (new_server name c) c2 (some hub) e in
    let at_a : c2.node a ≡ some (record { name = name; hub = none; child = none; sibling = none }) =
      ap (λ g. g a) e2 ∙ new_server-node name c in
    let old : (b : ℕ) → (b == a) ≡ false → c3.node b ≡ c.node b = (λ b n.
      put-other a b (some (linked hub name)) c2 n
      ∙ ap (λ g. g b) e2
      ∙ new_server-other name c b n) in
    let (c', u, w) =
      add_child-HasGained fuel hub a c3 h (linked hub name) k
        (old hub (mem-other a hub (hub ∷ k) m (ground arith)) ∙ eh)
        (put-same a (some (linked hub name)) c2) refl
        (Siblings-node c.node c3.node h.child k
          (λ y my. old y (mem-other a y (hub ∷ k) m (ground (arith, my)))) f)
        d m p in
    (
      c',
      rw (do_server, e, at_a) u,
      record {
        hub' = w.hub';
        at_hub = w.at_hub;
        children = w.children;
        joined = w.others a m ∙ put-same a (some (linked hub name)) c2;
        others = λ b n. w.others b (ground (arith, n)) ∙ old b (ground (arith, n));
      },
    )
